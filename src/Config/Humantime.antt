-- ===== src/Config/Humantime.antt =====
-- src/config.rs: `option_humantime`, a duration that may be absent, written for people.
use pingora_guide.Base.{Option, none, some, Outcome, ok, err, panic}
use pingora_guide.Config.Upstreams.{Duration}

-- The untagged `Val` of `deserialize`.
pub data Val : Type 0 where
  absent : Val
  present : Duration → Val

-- What `serde` and `humantime_serde` do: the writing of a duration and of nothing, and what is derived
-- for the reading of `Val`.
pub record Serde : Type 1 where
  pub Serialized : Type 0
  pub Error : Type 0
  pub serialize_duration : Duration → Outcome Error Serialized
  pub serialize_none : Outcome Error Serialized
  pub deserialize_val : Serialized → Outcome Error Val

module _ (S : Serde) where
  unfoldable pub serialize : Option Duration → Outcome S.Error S.Serialized
  serialize (some d) = S.serialize_duration d
  serialize none = S.serialize_none

  abbrev pub from_val : Val → Option Duration
  from_val absent = none
  from_val (present d) = some d

  unfoldable pub deserialize : S.Serialized → Outcome S.Error (Option Duration)
  deserialize input = elim (S.deserialize_val input) [
    | ok v ↦ ok (from_val v)
    | err e ↦ err e
    | panic message ↦ panic message
  ]
