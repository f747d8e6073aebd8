-- ===== src/Controller/Entities/Delivery.antt =====
-- Which remotes receive an entity event, and how the pending requests for entities are answered.
use integration_home_assista.Prelude.{
  false, String, List, [], ◌∷◌, ◌≡◌, refl, some, arith, not, ◌&&◌, if◌then◌else◌, eq_refl, str_eq,
  All,
}
use integration_home_assista.Prelude.Dict.{Dict, lookup}
use integration_home_assista.Platform.{Platform}
use integration_home_assista.Api.{EntityChange, entity}
use integration_home_assista.Controller.Messages.{WsMessage, event, entity_change_data, Sent, to_r2}
use integration_home_assista.Controller.State.{World, Controller, R2Session}
use integration_home_assista.Controller.Core.{send_r2_msg}
use integration_home_assista.Controller.Entities.{send_to_each, entity_event}

-- The keys of a map are different from each other.
abbrev IsFresh : String → Dict R2Session → Type 0
IsFresh id = All (λ e. str_eq id e.0 ≡ false)

abbrev pub IsUnique : Dict R2Session → Type 0
IsUnique [] = Unit
IsUnique ((id, s) ∷ rest) = IsFresh id rest × IsUnique rest

-- Every entry of the second map is found in the first one.
abbrev Found : Dict R2Session → Dict R2Session → Type 0
Found all = All (λ e. lookup e.0 all ≡ some e.1)

Found-cons :
    (id : String) (s : R2Session) (all rest : Dict R2Session)
    → IsFresh id rest
    → Found all rest
    → Found ((id, s) ∷ all) rest
unfolding lookup
Found-cons id s all [] _ _ = tt
Found-cons id s all ((j, t) ∷ rest) (n, h) (e, k) = (ground (arith), Found-cons id s all rest h k)

IsUnique-Found : (d : Dict R2Session) → IsUnique d → Found d d
unfolding lookup
IsUnique-Found [] _ = tt
IsUnique-Found ((id, s) ∷ d) (n, h) =
    (ground (arith, eq_refl id), Found-cons id s d d n (IsUnique-Found d h))

module _ {p : Platform} (w : World p) where
  -- The remotes that are awake and accept the message, newest first.
  abbrev pub delivered : WsMessage p → Dict R2Session → List (Sent p) → List (Sent p)
  delivered m [] sent = sent
  delivered m ((_, s) ∷ rest) sent =
      let more = to_r2 s.recipient m ∷ sent in
      delivered m rest (if not s.standby && w.r2_accepts s.recipient m then more else sent)

  one_delivered :
      (m : WsMessage p) (id : String) (s : R2Session) (c : Controller p)
      → lookup id c.sessions ≡ some s
      → send_r2_msg w m id c ≡ record c {
        sent =
            if not s.standby && w.r2_accepts s.recipient m
            then to_r2 s.recipient m ∷ c.sent
            else c.sent;
      }
  unfolding send_r2_msg
  one_delivered m id s c e = rw (e, send_r2_msg) (ground arith)

  all_delivered :
      (m : WsMessage p) (rest : Dict R2Session) (c : Controller p)
      → Found c.sessions rest
      → send_to_each w m rest c ≡ record c { sent = delivered m rest c.sent }
  unfolding send_to_each
  all_delivered m [] c _ = refl
  all_delivered m ((id, s) ∷ rest) c (e, h) = rw (one_delivered m id s c e) (
      all_delivered m rest
        (record c {
          sent =
              if not s.standby && w.r2_accepts s.recipient m
              then to_r2 s.recipient m ∷ c.sent
              else c.sent;
        })
        h)

  -- Where the keys of the session map are different from each other, an entity event goes once to
  -- every remote that is awake and accepts it, in the order of the map, and changes nothing else.
  pub entity_event_lem :
      (change : EntityChange p) (c : Controller p)
      → IsUnique c.sessions
      → entity_event w change c ≡ record c {
        sent =
            delivered (event "entity_change" entity (entity_change_data change)) c.sessions c.sent;
      }
  unfolding entity_event
  entity_event_lem change c u = all_delivered _ c.sessions c (IsUnique-Found c.sessions u)
