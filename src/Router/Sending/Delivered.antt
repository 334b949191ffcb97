-- ===== src/Router/Sending/Delivered.antt =====
-- What lgtd_router_send makes of the network, target by target.
use lightsd.Common.{ℕ, ◌≡◌, List, [], ◌∷◌, none, some}
use lightsd.Common.Bytes.{codes}
use lightsd.Wire.PacketTable.{PacketInfoMap}
use lightsd.Wire.Endian.{Host}
use lightsd.Tagging.{Tag, find_tag}
use lightsd.Router.Network.{RoutedBulb, Network}
use lightsd.Router.Targets.{IsName, IsAddress, IsNoAddress}
use lightsd.Router.Sending.{Packet}
use lightsd.Router.Sending.Sent.{SentToAll, SentToSites, SentToDevice, SentToLabel}

module _ (host : Host) (client_id : ℕ) (M : PacketInfoMap) (pkt : Packet) (now : ℕ) where
  -- The packet goes to what a target stands for, and to nobody if it stands for nothing.
  pub data Delivers (net : Network) (target : List ℕ) (net' : Network) : Type 0 where
    everybody :
        target ≡ codes "*" → SentToAll host client_id M pkt now net net' → Delivers net target net'
    tagged :
        (label : List ℕ) (tag : Tag)
        → target ≡ b'#' ∷ label
        → find_tag net.tags label ≡ some tag
        → SentToSites host client_id M pkt now tag.sites net net'
        → Delivers net target net'
    no_tag :
        (label : List ℕ)
        → target ≡ b'#' ∷ label
        → find_tag net.tags label ≡ none
        → net' ≡ net
        → Delivers net target net'
    device :
        (b : RoutedBulb)
        → IsName target
        → IsAddress net target b
        → SentToDevice host client_id M pkt now b net net'
        → Delivers net target net'
    labelled :
        IsName target
        → IsNoAddress net target
        → SentToLabel host client_id M pkt now target net net'
        → Delivers net target net'
    empty : target ≡ [] → net' ≡ net → Delivers net target net'

  -- All targets, one after the other.
  pub data DeliversAll : Network → List (List ℕ) → Network → Type 0 where
    done : (net : Network) → DeliversAll net [] net
    next :
        (net net' net'' : Network) (target : List ℕ) (targets : List (List ℕ))
        → Delivers net target net'
        → DeliversAll net' targets net''
        → DeliversAll net (target ∷ targets) net''
