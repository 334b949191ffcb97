-- ===== src/Gateway/Refcounts/Exact.antt =====
-- The counters of a gateway when the tags of its bulbs change.
use lightsd.Common.{
  ℕ, ◌+◌, ◌<◌, ◌≤◌, ◌≡◌, refl, ◌∙◌, List, Option, ◌==◌, if◌then◌else◌, arith, get_or, length, inl,
  inr, Bool-cases, Option-cases, length-set, get_or-set_self, get_or-set_ne, bit_and, bit_xor,
}
use lightsd.Common.Bits.{bit, bit-bit_and, bit-bit_xor, bit-le-one}
use lightsd.Common.Bits.Words.{bit_and_lt, bit_xor_lt}
use lightsd.Wire.PacketInfo.{PacketInfo}
use lightsd.Wire.TagIds.{u64_mod, foreach_tag_id}
use lightsd.Wire.PacketTable.{PacketInfoMap, get_packet_info}
use lightsd.Wire.Endian.{Host}
use lightsd.Gateway.State.{Gateway}
use lightsd.Gateway.Queue.{enqueue_packet}
use lightsd.Gateway.Send.{send_to_site}
use lightsd.Gateway.Refcounts.{
  for_each, saturated, wrapped_down, count_up, count_down, delete_tag, release_tag,
  update_tag_refcounts, remove_bulb_tags,
}
use lightsd.Gateway.Refcounts.Once.{count, Counts, for_each-once, for_each-HasCounters}

count_up-Counts : Counts count_up saturated
unfolding count_up
count_up-Counts = record {
  keeps = λ gw k h. length-set gw.tag_refcounts k (saturated (count gw k)) ∙ h;
  self =
      λ gw k lt h. get_or-set_self gw.tag_refcounts k (saturated (count gw k)) 0 (omega (arith, h));
  other = λ gw k i ne. get_or-set_ne gw.tag_refcounts k i (saturated (count gw k)) 0 ne;
}

count_down-Counts : Counts count_down wrapped_down
unfolding count_down
count_down-Counts = record {
  keeps = λ gw k h. length-set gw.tag_refcounts k (wrapped_down (count gw k)) ∙ h;
  self = λ gw k lt h.
      get_or-set_self gw.tag_refcounts k (wrapped_down (count gw k)) 0 (omega (arith, h));
  other = λ gw k i ne. get_or-set_ne gw.tag_refcounts k i (wrapped_down (count gw k)) 0 ne;
}

-- The counter of tag `i` when a bulb's tags change from `old` to `new`.
abbrev recounted : ℕ → ℕ → ℕ → ℕ → ℕ
recounted c i old new =
    let up : ℕ = if bit (bit_and (bit_xor old new) new) i == 1 then saturated c else c in
    if bit (bit_and (bit_xor old new) old) i == 1 then wrapped_down up else up

recounted-exact :
    (c i old new : ℕ)
    → c + bit new i ≤ 255
    → bit old i ≤ c
    → recounted c i old new + bit old i ≡ c + bit new i
recounted-exact c i old new up down = ground (
  arith,
  bit-bit_and (bit_xor old new) new i,
  bit-bit_and (bit_xor old new) old i,
  bit-bit_xor old new i,
  bit-le-one old i,
  bit-le-one new i,
)

module _ (host : Host) (client_id : ℕ) (M : PacketInfoMap) where
  pub enqueue_packet-counts :
      (gw : Gateway) (hdr : List ℕ) (info : PacketInfo) (pkt : Option (List ℕ))
      → (enqueue_packet gw hdr info pkt).tag_refcounts ≡ gw.tag_refcounts
  unfolding enqueue_packet
  enqueue_packet-counts gw hdr info pkt = elim (Bool-cases gw.pkt_ring_full) [
    | inl e ↦ rw (e, enqueue_packet) refl
    | inr e ↦ rw (e, enqueue_packet) refl
  ]

  send_to_site-counts :
      (gw : Gateway) (type : ℕ) (pkt : Option (List ℕ))
      → (send_to_site host client_id M gw type pkt).tag_refcounts ≡ gw.tag_refcounts
  unfolding send_to_site
  send_to_site-counts gw type pkt = elim (Option-cases (get_packet_info M type)) [
    | inl e ↦ rw (e, send_to_site) refl
    | inr (info, e) ↦ rw (e, send_to_site) (enqueue_packet-counts gw _ info pkt)
  ]

  release_tag-counts :
      (gw : Gateway) (k : ℕ)
      → (release_tag host client_id M gw k).tag_refcounts ≡ (count_down gw k).tag_refcounts
  unfolding release_tag delete_tag
  release_tag-counts gw k = elim (Bool-cases (count (count_down gw k) k == 0)) [
    | inl e ↦ rw (release_tag, e) (send_to_site-counts (count_down gw k) _ _)
    | inr e ↦ rw (release_tag, e) refl
  ]

  release_tag-Counts : Counts (release_tag host client_id M) wrapped_down
  release_tag-Counts = record {
    keeps = λ gw k h. rw (release_tag-counts gw k) (count_down-Counts.keeps gw k h);
    self = λ gw k lt h. rw (release_tag-counts gw k) (count_down-Counts.self gw k lt h);
    other = λ gw k i ne. rw (release_tag-counts gw k) (count_down-Counts.other gw k i ne);
  }

-- When the tags of a bulb change from `old` to `new`, both of 64 bits, and the gateway has its 64
-- counters, the counter of each tag id below 64 that has room for one
-- more bulb if it is to be added, and counts at least this bulb if it is to be removed, moves by
-- exactly the difference of its bits in the two words; the packets that ask the site to forget tags do
-- not disturb the counters.
pub update_tag_refcounts-exact :
    (host : Host) (client_id : ℕ) (M : PacketInfoMap) (gw : Gateway) (old new i : ℕ)
    → old < u64_mod
    → new < u64_mod
    → i < 64
    → length gw.tag_refcounts ≡ 64
    → get_or gw.tag_refcounts i 0 + bit new i ≤ 255
    → bit old i ≤ get_or gw.tag_refcounts i 0
    → get_or (update_tag_refcounts host client_id M gw old new).tag_refcounts i 0 + bit old i
      ≡ get_or gw.tag_refcounts i 0 + bit new i
unfolding update_tag_refcounts
update_tag_refcounts-exact host c M gw old new i ho hn lt h up down =
    let added : ℕ = bit_and (bit_xor old new) new in
    let removed : ℕ = bit_and (bit_xor old new) old in
    let wx : bit_xor old new < u64_mod = bit_xor_lt 64 old new ho hn in
    let gw' : Gateway = for_each count_up gw (foreach_tag_id added) in
    rw
      (
        for_each-once (release_tag host c M) wrapped_down (release_tag-Counts host c M) removed i
            gw' (bit_and_lt 64 (bit_xor old new) old wx) lt
            (for_each-HasCounters count_up saturated count_up-Counts added gw h),
        for_each-once count_up saturated count_up-Counts added i gw
            (bit_and_lt 64 (bit_xor old new) new wx) lt h,
      )
      (recounted-exact (count gw i) i old new up down)

-- When a bulb leaves that has tags of 64 bits, and the gateway has its 64 counters, the counter of each
-- tag id below 64, if it is at most 255 and counts at least this bulb if it has the tag, goes down by
-- one if the bulb has the tag, and stays if it has not.
pub remove_bulb_tags-exact :
    (gw : Gateway) (tags i : ℕ)
    → tags < u64_mod
    → i < 64
    → length gw.tag_refcounts ≡ 64
    → bit tags i ≤ get_or gw.tag_refcounts i 0
    → get_or gw.tag_refcounts i 0 ≤ 255
    → get_or (remove_bulb_tags gw tags).tag_refcounts i 0 + bit tags i ≡ get_or gw.tag_refcounts i 0
unfolding remove_bulb_tags
remove_bulb_tags-exact gw tags i w lt h down up =
    rw (for_each-once count_down wrapped_down count_down-Counts tags i gw w lt h)
      (ground (arith, bit-le-one tags i))
