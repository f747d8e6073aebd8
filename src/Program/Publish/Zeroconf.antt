-- ===== src/Program/Publish/Zeroconf.antt =====
-- src/server/zeroconf.rs: the registration of the service in a thread of its own. The crate `zeroconf`
-- is a parameter.
use integration_home_assista.Prelude.{
  ℕ, String, Option, none, some, List, [], ◌∷◌, ◌⊎◌, inl, inr, ◌≡◌, refl, arith, Option-cases,
}
use integration_home_assista.Prelude.Dict.{Dict}
use integration_home_assista.Errors.{Result, ok, err, bad_request}
use integration_home_assista.Program.Metadata.{Publication, properties, split_once_eq}

-- The crate: its check of a service type, its TXT records, and the registration with its error.
pub record Zeroconf (ServiceType TxtRecord : Type 0) : Type 0 where
  pub service_type : String → String → ServiceType ⊎ String
  pub empty : TxtRecord
  pub insert : String → String → TxtRecord → Option TxtRecord
  pub register : ServiceType → ℕ → String → TxtRecord → Option String

-- The thread: it panicked, it ended, or it polls the event loop for the registered record.
pub data Publisher (TxtRecord : Type 0) : Type 0 where
  panicked : Publisher TxtRecord
  ended : String → Publisher TxtRecord
  polling : TxtRecord → Publisher TxtRecord

module _ {ServiceType TxtRecord : Type 0} (crate : Zeroconf ServiceType TxtRecord) where
  -- The loop over the texts; `none` is the panic of `unwrap`.
  unfoldable txt_record : List String → TxtRecord → Option TxtRecord
  txt_record [] record_ = some record_
  txt_record (text ∷ texts) record_ = elim (split_once_eq text) [
    | none ↦ txt_record texts record_
    | some (key, value) ↦ elim (crate.insert key value record_) [
      | none ↦ none
      | some longer ↦ txt_record texts longer
    ]
  ]

  -- `service_publisher`, up to the loop that polls.
  unfoldable service_publisher : Publication → ServiceType → Publisher TxtRecord
  service_publisher service kind = elim (txt_record service.txt crate.empty) [
    | none ↦ panicked
    | some record_ ↦ elim (crate.register kind service.port service.instance_name record_) [
      | some e ↦ ended e
      | none ↦ polling record_
    ]
  ]

  -- The polling loop, by the errors that the polls have returned so far.
  unfoldable poll_events : List (Option String) → Publisher TxtRecord → Publisher TxtRecord
  poll_events [] thread = thread
  poll_events (none ∷ polls) thread = poll_events polls thread
  poll_events (some e ∷ polls) (polling _) = ended e
  poll_events (some e ∷ polls) thread = thread

  -- `publish_service`, with the thread that it starts.
  unfoldable publish_service : Publication → Result (Unit {0}) × Option (Publisher TxtRecord)
  publish_service service = elim (crate.service_type service.service_name service.protocol) [
    | inr e ↦ (err (bad_request e), none)
    | inl kind ↦ (ok tt, some (service_publisher service kind))
  ]

  -- The insertion of properties that were read before.
  abbrev insert_all : Dict String → TxtRecord → Option TxtRecord
  insert_all [] record_ = some record_
  insert_all ((key, value) ∷ entries) record_ = elim (crate.insert key value record_) [
    | none ↦ none
    | some longer ↦ insert_all entries longer
  ]

  -- The record holds the same properties, in the same order, as those that `mdns_sd` registers.
  txt_record-properties :
      (texts : List String) (record_ : TxtRecord)
      → txt_record texts record_ ≡ insert_all (properties texts) record_
  unfolding txt_record properties
  txt_record-properties [] record_ = refl
  txt_record-properties (text ∷ texts) record_ = elim (Option-cases (split_once_eq text)) [
    | inl q ↦ rw (q, txt_record, properties) (txt_record-properties texts record_)
    | inr ((key, value), q) ↦ elim (Option-cases (crate.insert key value record_)) [
      | inl r ↦ ground arith
      | inr (longer, r) ↦ ground (arith, txt_record-properties texts longer)
    ]
  ]
