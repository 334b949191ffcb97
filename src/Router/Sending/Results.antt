-- ===== src/Router/Sending/Results.antt =====
-- The result of lgtd_router_send.
use lightsd.Common.{
  ℕ, ◌≡◌, refl, ap, ◌∙◌, inl, inr, List, [], ◌∷◌, Bool, true, false, not, ◌&&◌, ◌||◌, Bool-cases,
  Option-cases, get_or, ◌==◌,
}
use lightsd.Wire.PacketTable.{PacketInfoMap}
use lightsd.Wire.Endian.{Host}
use lightsd.Tagging.{Tags, Site, find_tag}
use lightsd.Jsonrpc.Schema.{is_some}
use lightsd.Router.Network.{Network, gateway_at, isxdigit, device_addr_to_device}
use lightsd.Router.Devices.{is_everything}
use lightsd.Router.Sending.{
  Packet, send_to_sites, send_to_bulb, send_to_name, send_to_tag_named, send_one, send,
}

-- A target that is not empty, and that is no tag that does not exist.
abbrev pub is_target : Tags → List ℕ → Bool
is_target tags [] = false
is_target tags (c ∷ label) =
    is_everything (c ∷ label) || (not (c == b'#') || is_some (find_tag tags label))

abbrev pub all_targets : Tags → List (List ℕ) → Bool
all_targets tags [] = true
all_targets tags (target ∷ targets) = is_target tags target && all_targets tags targets

module _ (host : Host) (client_id : ℕ) (M : PacketInfoMap) (pkt : Packet) (now : ℕ) where
  send_to_sites-tags :
      (sites : List Site) (net : Network)
      → (send_to_sites host client_id M sites net pkt now).tags ≡ net.tags
  unfolding send_to_sites
  send_to_sites-tags [] net = refl
  send_to_sites-tags (site ∷ sites) net = elim (Option-cases (gateway_at net.gateways site.gw)) [
    | inl e ↦ rw (e, send_to_sites) (send_to_sites-tags sites net)
    | inr (g, e) ↦ rw (e, send_to_sites) (send_to_sites-tags sites _)
  ]

  send_to_name-tags :
      (net : Network) (target : List ℕ)
      → (send_to_name host client_id M net target pkt now).tags ≡ net.tags
  unfolding send_to_name send_to_bulb
  send_to_name-tags net target = elim (Bool-cases (isxdigit (get_or target 0 0))) [
    | inr e ↦ rw (e, send_to_name) refl
    | inl e ↦ elim (Option-cases (device_addr_to_device net target)) [
      | inl d ↦ rw (e, d, send_to_name) refl
      | inr (b, d) ↦ rw (e, d, send_to_name) refl
    ]
  ]

  -- One target: the tags stay, and the result is whether it is a target.
  send_one-result :
      (net : Network) (target : List ℕ)
      → ((send_one host client_id M net target pkt now).0 ≡ is_target net.tags target)
        × ((send_one host client_id M net target pkt now).1.tags ≡ net.tags)
  unfolding send_one send_to_tag_named
  send_one-result net [] = (refl, refl)
  send_one-result net (c ∷ label) = elim (Bool-cases (is_everything (c ∷ label))) [
    | inl e ↦ (rw (e, send_one) refl, rw (e, send_one) refl)
    | inr e ↦ elim (Bool-cases (c == b'#')) [
      | inr f ↦ (rw (e, f, send_one) refl, rw (e, f, send_one) (send_to_name-tags net (c ∷ label)))
      | inl f ↦ elim (Option-cases (find_tag net.tags label)) [
        | inl g ↦ (
          rw (e, f, send_one, g, send_to_tag_named) refl,
          rw (e, f, send_one, g, send_to_tag_named) refl,
        )
        | inr (tag, g) ↦ (
          rw (e, f, send_one, g, send_to_tag_named) refl,
          rw (e, f, send_one, g, send_to_tag_named) (send_to_sites-tags tag.sites net),
        )
      ]
    ]
  ]

  -- The result for all targets.
  pub send_value :
      (targets : List (List ℕ)) (net : Network)
      → (send host client_id M net targets pkt now).0 ≡ all_targets net.tags targets
  unfolding send
  send_value [] net = refl
  send_value (target ∷ targets) net =
      let net' : Network = (send_one host client_id M net target pkt now).1 in
      let (e, f) = send_one-result net target in
      ap (λ (b : Bool). b && (send host client_id M net' targets pkt now).0) e
      ∙ ap (λ (b : Bool). is_target net.tags target && b) (send_value targets net')
      ∙ ap (λ (t : Tags). is_target net.tags target && all_targets t targets) f
