-- ===== src/Handling/Links.antt =====
-- The pointers between the table of bulbs and the lists of bulbs of the gateways.
pub mod Opening
pub mod Opened
pub mod Kept
pub mod Tags
pub mod Handled
pub mod Received
pub mod Gateways
use mathlib.Core.Path.{subst}
use lightsd.Common.{
  ℕ, ◌≡◌, ◌≢◌, refl, sym, ap, ◌∙◌, inl, inr, List, [], ◌∷◌, Any, true, false, Option, none, some,
  Bool-cases, ◌==◌, arith,
}
use lightsd.Common.Bytes.{same_bytes, same_bytes-eq}
use lightsd.Gateway.State.{Gateway}
use lightsd.Gateway.Bulbs.{Bulb}
use lightsd.Router.Network.{RoutedBulb, RoutedGateway, Network, bulb_get, gateway_at, set_gateway}
use lightsd.Router.Devices.Known.{Listed, InTable}
use lightsd.Router.Devices.Insert.{NoDuplicates, Distinct}
use lightsd.Handling.{set_bulb}

-- The gateway of a bulb of the table.
unfoldable pub gw_of : List RoutedBulb → List ℕ → Option ℕ
gw_of bulbs addr = elim (bulb_get bulbs addr) [ none ↦ none | some b ↦ some (b.gw) ]

-- The list of bulbs of a gateway.
unfoldable pub bulbs_at : List RoutedGateway → ℕ → Option (List (List ℕ))
bulbs_at gateways number = elim (gateway_at gateways number) [
  | none ↦ none
  | some g ↦ some (g.gw.bulbs)
]

abbrev pub Numbered : ℕ → List RoutedGateway → Type 0
Numbered n gateways = Any (λ (g : RoutedGateway). g.number ≡ n) gateways

abbrev pub DistinctNumbers : List RoutedGateway → Type 0
DistinctNumbers [] = Unit {0}
DistinctNumbers (g ∷ gateways) = (¬ Numbered g.number gateways) × DistinctNumbers gateways

-- A bulb of the table is in the list of its gateway, which exists; and what is in the list of a gateway is
-- a bulb of the table that is on this gateway.
pub record Linked (net : Network) : Type 0 where
  pub distinct : Distinct net.bulbs
  pub numbers : DistinctNumbers net.gateways
  pub home :
      (addr : List ℕ) (n : ℕ)
      → gw_of net.bulbs addr ≡ some n
      → (l : List (List ℕ)) × (bulbs_at net.gateways n ≡ some l) × Listed addr l
  pub back :
      (n : ℕ) (l : List (List ℕ)) (addr : List ℕ)
      → bulbs_at net.gateways n ≡ some l
      → Listed addr l
      → gw_of net.bulbs addr ≡ some n
  pub once : (n : ℕ) (l : List (List ℕ)) → bulbs_at net.gateways n ≡ some l → NoDuplicates l

-- The same addresses and gateways, bulb by bulb; the same numbers and lists, gateway by gateway.
pub data SameBulbs : List RoutedBulb → List RoutedBulb → Type 0 where
  nil : SameBulbs [] []
  cons :
      (b c : RoutedBulb) {bs cs : List RoutedBulb}
      → c.bulb.addr ≡ b.bulb.addr
      → c.gw ≡ b.gw
      → SameBulbs bs cs
      → SameBulbs (b ∷ bs) (c ∷ cs)

pub data SameGateways : List RoutedGateway → List RoutedGateway → Type 0 where
  nil : SameGateways [] []
  cons :
      (g h : RoutedGateway) {gs hs : List RoutedGateway}
      → h.number ≡ g.number
      → h.gw.bulbs ≡ g.gw.bulbs
      → SameGateways gs hs
      → SameGateways (g ∷ gs) (h ∷ hs)

abbrev pub SameLinks : Network → Network → Type 0
SameLinks net net' = SameBulbs net.bulbs net'.bulbs × SameGateways net.gateways net'.gateways

pub SameBulbs-refl : (bs : List RoutedBulb) → SameBulbs bs bs
SameBulbs-refl [] = SameBulbs.nil
SameBulbs-refl (b ∷ bs) = SameBulbs.cons b b refl refl (SameBulbs-refl bs)

pub SameGateways-refl : (gs : List RoutedGateway) → SameGateways gs gs
SameGateways-refl [] = SameGateways.nil
SameGateways-refl (g ∷ gs) = SameGateways.cons g g refl refl (SameGateways-refl gs)

pub SameBulbs-trans :
    {as' bs cs : List RoutedBulb} → SameBulbs as' bs → SameBulbs bs cs → SameBulbs as' cs
SameBulbs-trans SameBulbs.nil SameBulbs.nil = SameBulbs.nil
SameBulbs-trans (SameBulbs.cons a b e f h) (SameBulbs.cons b' c e' f' k) =
    SameBulbs.cons a c (e' ∙ e) (f' ∙ f) (SameBulbs-trans h k)

pub SameGateways-trans :
    {as' bs cs : List RoutedGateway}
    → SameGateways as' bs
    → SameGateways bs cs
    → SameGateways as' cs
SameGateways-trans SameGateways.nil SameGateways.nil = SameGateways.nil
SameGateways-trans (SameGateways.cons a b e f h) (SameGateways.cons b' c e' f' k) =
    SameGateways.cons a c (e' ∙ e) (f' ∙ f) (SameGateways-trans h k)

pub SameLinks-refl : (net : Network) → SameLinks net net
SameLinks-refl net = (SameBulbs-refl net.bulbs, SameGateways-refl net.gateways)

pub SameLinks-trans : (a b c : Network) → SameLinks a b → SameLinks b c → SameLinks a c
SameLinks-trans a b c (h, k) (h', k') = (SameBulbs-trans h h', SameGateways-trans k k')

gw_of-SameBulbs :
    {bs cs : List RoutedBulb} (addr : List ℕ) → SameBulbs bs cs → gw_of cs addr ≡ gw_of bs addr
unfolding gw_of bulb_get
gw_of-SameBulbs addr SameBulbs.nil = refl
gw_of-SameBulbs addr (SameBulbs.cons b c e f h) = elim (Bool-cases (same_bytes b.bulb.addr addr)) [
  | inl k ↦
      let k' : same_bytes c.bulb.addr addr ≡ true = ap (λ (a : List ℕ). same_bytes a addr) e ∙ k in
      rw (k, k', gw_of, bulb_get) (ap (λ (n : ℕ). some n) f)
  | inr k ↦
      let k' : same_bytes c.bulb.addr addr ≡ false = ap (λ (a : List ℕ). same_bytes a addr) e ∙ k in
      rw (k, k', gw_of, bulb_get) (gw_of-SameBulbs addr h)
]

bulbs_at-SameGateways :
    {gs hs : List RoutedGateway} (n : ℕ) → SameGateways gs hs → bulbs_at hs n ≡ bulbs_at gs n
unfolding bulbs_at gateway_at
bulbs_at-SameGateways n SameGateways.nil = refl
bulbs_at-SameGateways n (SameGateways.cons g h e f s) = elim (Bool-cases (g.number == n)) [
  | inl k ↦
      let k' : (h.number == n) ≡ true = ap (λ (a : ℕ). a == n) e ∙ k in
      rw (k, k', bulbs_at, gateway_at) (ap (λ (l : List (List ℕ)). some l) f)
  | inr k ↦
      let k' : (h.number == n) ≡ false = ap (λ (a : ℕ). a == n) e ∙ k in
      rw (k, k', bulbs_at, gateway_at) (bulbs_at-SameGateways n s)
]

InTable-SameBulbs :
    {bs cs : List RoutedBulb} (a : List ℕ) → SameBulbs bs cs → InTable a cs → InTable a bs
InTable-SameBulbs a SameBulbs.nil h = h
InTable-SameBulbs a (SameBulbs.cons b c e f s) (inl h) = inl (sym e ∙ h)
InTable-SameBulbs a (SameBulbs.cons b c e f s) (inr h) = inr (InTable-SameBulbs a s h)

InTable-eq : (bs : List RoutedBulb) {a a' : List ℕ} → a ≡ a' → InTable a bs → InTable a' bs
InTable-eq bs e h = subst (λ (a : List ℕ). InTable a bs) e h

Numbered-eq : (gs : List RoutedGateway) {n n' : ℕ} → n ≡ n' → Numbered n gs → Numbered n' gs
Numbered-eq gs e h = subst (λ (n : ℕ). Numbered n gs) e h

Distinct-SameBulbs : {bs cs : List RoutedBulb} → SameBulbs bs cs → Distinct bs → Distinct cs
Distinct-SameBulbs SameBulbs.nil d = tt
Distinct-SameBulbs (SameBulbs.cons b c {bs = bs} e f s) (fresh, d) =
    (λ h. fresh (InTable-eq bs e (InTable-SameBulbs c.bulb.addr s h)), Distinct-SameBulbs s d)

Numbered-SameGateways :
    {gs hs : List RoutedGateway} (n : ℕ) → SameGateways gs hs → Numbered n hs → Numbered n gs
Numbered-SameGateways n SameGateways.nil h = h
Numbered-SameGateways n (SameGateways.cons g h e f s) (inl k) = inl (sym e ∙ k)
Numbered-SameGateways n (SameGateways.cons g h e f s) (inr k) = inr (Numbered-SameGateways n s k)

DistinctNumbers-SameGateways :
    {gs hs : List RoutedGateway} → SameGateways gs hs → DistinctNumbers gs → DistinctNumbers hs
DistinctNumbers-SameGateways SameGateways.nil d = tt
DistinctNumbers-SameGateways (SameGateways.cons g h {gs = gs} e f s) (fresh, d) = (
  λ k. fresh (Numbered-eq gs e (Numbered-SameGateways h.number s k)),
  DistinctNumbers-SameGateways s d,
)

-- What keeps the links keeps them linked.
pub SameLinks-Linked : (net net' : Network) → SameLinks net net' → Linked net → Linked net'
SameLinks-Linked net net' (b, g) l = record {
  distinct = Distinct-SameBulbs b l.distinct;
  numbers = DistinctNumbers-SameGateways g l.numbers;
  home = λ addr n e.
      let (list, f, h) = l.home addr n (sym (gw_of-SameBulbs addr b) ∙ e) in
      (list, bulbs_at-SameGateways n g ∙ f, h);
  back = λ n list addr e h.
      gw_of-SameBulbs addr b ∙ l.back n list addr (sym (bulbs_at-SameGateways n g) ∙ e) h;
  once = λ n list e. l.once n list (sym (bulbs_at-SameGateways n g) ∙ e);
}
