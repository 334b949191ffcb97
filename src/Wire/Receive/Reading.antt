-- ===== src/Wire/Receive/Reading.antt =====
-- The header at the start of a buffer, read from its bytes.
use mathlib.Core.List.{reverse-reverse, append_assoc}
use lightsd.Common.{
  ℕ, zero, suc, ◌+◌, ◌<◌, ◌^◌, ◌≡◌, refl, ap, ◌∙◌, List, [], ◌∷◌, ◌++◌, length, length-append, take,
  drop, drop_past, get_or, get_or-drop, arith,
}
use lightsd.Wire.Endian.{Host, memory, le_bytes, of_le_bytes}
use lightsd.Wire.Endian.Laws.{of_le_bytes-le_bytes, length-le_bytes, length-reverse}
use lightsd.Wire.Header.{Header, header_bytes}
use lightsd.Wire.Receive.{from_memory, read_header}

module _ {ℓ} {A : Type ℓ} where
  take_all : (k : ℕ) (xs ys : List A) → length xs ≡ k → take k (xs ++ ys) ≡ xs
  take_all zero [] ys h = refl
  take_all zero (x ∷ xs) ys h = absurd (omega (arith, h))
  take_all (suc k) [] ys h = absurd (omega (arith, h))
  take_all (suc k) (x ∷ xs) ys h = ap (◌∷◌ x) (take_all k xs ys (omega (arith, h)))

  get_past :
      (k n : ℕ) (xs ys : List A) (d : A)
      → length xs ≡ k
      → get_or (xs ++ ys) (k + n) d ≡ get_or ys n d
  get_past zero n [] ys d h = ap (λ (m : ℕ). get_or ys m d) (omega arith)
  get_past zero n (x ∷ xs) ys d h = absurd (omega (arith, h))
  get_past (suc k) n [] ys d h = absurd (omega (arith, h))
  get_past (suc k) n (x ∷ xs) ys d h =
      let e : suc k + n ≡ suc (k + n) = omega arith in
      rw e (get_past k n xs ys d (omega (arith, h)))

length-memory : (host : Host) (k n : ℕ) → length (memory host k n) ≡ k
unfolding memory
length-memory Host.little k n = length-le_bytes k n
length-memory Host.big k n = length-reverse (le_bytes k n) ∙ length-le_bytes k n

from_memory-memory : (host : Host) (k n : ℕ) → n < 256 ^ k → from_memory host (memory host k n) ≡ n
unfolding from_memory memory
from_memory-memory Host.little k n h = of_le_bytes-le_bytes k n h
from_memory-memory Host.big k n h =
    ap of_le_bytes (reverse-reverse (le_bytes k n)) ∙ of_le_bytes-le_bytes k n h

-- The numbers of a header fit their fields, and its arrays have their lengths.
pub record FitsFields (hdr : Header) : Type 0 where
  pub size : hdr.size < 256 ^ 2
  pub protocol : hdr.protocol < 256 ^ 2
  pub source : hdr.source < 256 ^ 4
  pub target : hdr.target < 256 ^ 8
  pub site : length hdr.site ≡ 6
  pub at_time : hdr.at_time < 256 ^ 8
  pub packet_type : hdr.packet_type < 256 ^ 2
  pub reserved : length hdr.reserved ≡ 2

module _ (host : Host) (hdr : Header) (pkt : List ℕ) (fits : FitsFields hdr) where
  -- What follows each part of the header.
  abbrev after_type : List ℕ
  after_type = hdr.reserved ++ pkt

  abbrev after_time : List ℕ
  after_time = memory host 2 hdr.packet_type ++ after_type

  abbrev after_seqn : List ℕ
  after_seqn = memory host 8 hdr.at_time ++ after_time

  abbrev after_site : List ℕ
  after_site = hdr.flags ∷ hdr.seqn ∷ after_seqn

  abbrev after_target : List ℕ
  after_target = hdr.site ++ after_site

  abbrev after_source : List ℕ
  after_source = memory host 8 hdr.target ++ after_target

  abbrev after_protocol : List ℕ
  after_protocol = memory host 4 hdr.source ++ after_source

  abbrev after_size : List ℕ
  after_size = memory host 2 hdr.protocol ++ after_protocol

  abbrev buffer : List ℕ
  buffer = memory host 2 hdr.size ++ after_size

  pub header_bytes-append : header_bytes host hdr ++ pkt ≡ buffer
  unfolding header_bytes
  header_bytes-append = simp append_assoc refl

  at_protocol : (n : ℕ) → drop (2 + n) buffer ≡ drop n after_size
  at_protocol n = drop_past 2 n _ _ (length-memory host 2 hdr.size)

  at_source : (n : ℕ) → drop (4 + n) buffer ≡ drop n after_protocol
  at_source n =
      ap (λ (m : ℕ). drop m buffer) (omega arith)
      ∙ at_protocol (2 + n)
      ∙ drop_past 2 n _ _ (length-memory host 2 hdr.protocol)

  at_target : (n : ℕ) → drop (8 + n) buffer ≡ drop n after_source
  at_target n =
      ap (λ (m : ℕ). drop m buffer) (omega arith)
      ∙ at_source (4 + n)
      ∙ drop_past 4 n _ _ (length-memory host 4 hdr.source)

  at_site : (n : ℕ) → drop (16 + n) buffer ≡ drop n after_target
  at_site n =
      ap (λ (m : ℕ). drop m buffer) (omega arith)
      ∙ at_target (8 + n)
      ∙ drop_past 8 n _ _ (length-memory host 8 hdr.target)

  at_flags : (n : ℕ) → drop (22 + n) buffer ≡ drop n after_site
  at_flags n =
      ap (λ (m : ℕ). drop m buffer) (omega arith) ∙ at_site (6 + n) ∙ drop_past 6 n _ _ fits.site

  at_at_time : drop 24 buffer ≡ after_seqn
  at_at_time = at_flags 2

  at_packet_type : drop 32 buffer ≡ after_time
  at_packet_type = at_flags 10 ∙ drop_past 8 0 _ _ (length-memory host 8 hdr.at_time)

  at_reserved : drop 34 buffer ≡ after_type
  at_reserved =
      at_flags 12
      ∙ drop_past 8 2 _ _ (length-memory host 8 hdr.at_time)
      ∙ drop_past 2 0 _ _ (length-memory host 2 hdr.packet_type)

  pub at_payload : drop 36 buffer ≡ pkt
  at_payload =
      at_flags 14
      ∙ drop_past 8 4 _ _ (length-memory host 8 hdr.at_time)
      ∙ drop_past 2 2 _ _ (length-memory host 2 hdr.packet_type)
      ∙ drop_past 2 0 _ _ fits.reserved

  number :
      (k n : ℕ) (rest : List ℕ)
      → n < 256 ^ k
      → from_memory host (take k (memory host k n ++ rest)) ≡ n
  number k n rest h =
      ap (from_memory host) (take_all k _ rest (length-memory host k n))
      ∙ from_memory-memory host k n h

  read_header-buffer : read_header host buffer ≡ hdr
  unfolding read_header
  read_header-buffer =
      rw
        (
          at_protocol 0,
          at_source 0,
          at_target 0,
          at_site 0,
          at_at_time,
          at_packet_type,
          at_reserved,
          get_or-drop 22 0 buffer 0,
          get_or-drop 22 1 buffer 0,
          at_flags 0,
          number 2 hdr.size after_size fits.size,
          number 2 hdr.protocol after_protocol fits.protocol,
          number 4 hdr.source after_source fits.source,
          number 8 hdr.target after_target fits.target,
          number 8 hdr.at_time after_time fits.at_time,
          number 2 hdr.packet_type after_type fits.packet_type,
          take_all 6 hdr.site after_site fits.site,
          take_all 2 hdr.reserved pkt fits.reserved,
        )
        refl

  -- Reading a buffer that starts with the bytes of a header gives the header.
  pub read_header-header_bytes : read_header host (header_bytes host hdr ++ pkt) ≡ hdr
  read_header-header_bytes = ap (read_header host) header_bytes-append ∙ read_header-buffer

  pub length-header_bytes : length (header_bytes host hdr) ≡ 36
  unfolding header_bytes
  length-header_bytes = simp (length-append, length-memory, fits.site, fits.reserved) refl
