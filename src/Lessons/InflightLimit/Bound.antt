-- ===== src/Lessons/InflightLimit/Bound.antt =====
-- examples/38_inflight_limit.rs: any interleaving of requests against the limiter.
use pingora_guide.Base.{
  ℕ, suc, ◌+◌, ◌-◌, ◌≤◌, ◌<◌, ◌≡◌, refl, String, List, [], ◌∷◌, ◌++◌, length, ◌↔◌, arith,
}
use pingora_guide.Pingora.{Pingora}
use pingora_guide.Lessons.InflightLimit.{
  Inflight, Entered, admitted, refused, guard_of, enter, max_concurrent_req,
}

-- The documented behaviour of the limiter, for one key.
pub record IsCounter (Guard : Type 0) (I : Inflight Guard) (key : String) : Type 0 where
  pub incr_count : (s : I.State) → (I.incr key 1 s).0.1 ≡ I.count key s + 1
  pub incr_state : (s : I.State) → I.count key (I.incr key 1 s).1 ≡ I.count key s + 1
  pub drop_count : (s : I.State) (g : Guard) → I.count key (I.drop g s) ≡ I.count key s - 1

abbrev pub going_upstream : {Guard : Type 0} → List (Entered Guard) → ℕ
going_upstream [] = 0
going_upstream (admitted g ∷ es) = suc (going_upstream es)
going_upstream (refused g ∷ es) = going_upstream es

module _ {Guard : Type 0} where
  length-remove :
      (es fs : List (Entered Guard)) (e : Entered Guard)
      → length (es ++ e ∷ fs) ≡ suc (length (es ++ fs))
  length-remove [] fs e = refl
  length-remove (d ∷ es) fs e = ground (arith, length-remove es fs e)

  going_upstream-remove :
      (es fs : List (Entered Guard)) (e : Entered Guard)
      → going_upstream (es ++ fs) ≤ going_upstream (es ++ e ∷ fs)
  going_upstream-remove [] fs (admitted g) = omega arith
  going_upstream-remove [] fs (refused g) = omega arith
  going_upstream-remove (admitted d ∷ es) fs e = ground (arith, going_upstream-remove es fs e)
  going_upstream-remove (refused d ∷ es) fs e = going_upstream-remove es fs e

  going_upstream-length : (es : List (Entered Guard)) → going_upstream es ≤ length es
  going_upstream-length [] = omega arith
  going_upstream-length (admitted d ∷ es) = ground (arith, going_upstream-length es)
  going_upstream-length (refused d ∷ es) = ground (arith, going_upstream-length es)

module _ (P : Pingora) (I : Inflight P.Guard) where
  -- The requests that hold a guard, and the limiter.
  pub record World : Type 0 where
    pub live : List (Entered P.Guard)
    pub limiter : I.State

  -- A request arrives, or one that holds a guard drops it: an admitted one with its context, a refused
  -- one when its answer is sent.
  pub data Step : World → World → Type 0 where
    arrives :
        {w : World}
        → Step w
            (record { live = (enter P I w.limiter).0 ∷ w.live; limiter = (enter P I w.limiter).1 })
    ends :
        (es fs : List (Entered P.Guard)) (e : Entered P.Guard) (s : I.State)
        → Step
            (record { live = es ++ e ∷ fs; limiter = s })
            (record { live = es ++ fs; limiter = I.drop (guard_of e) s })

  pub data Reach : World → Type 0 where
    start : {s : I.State} → I.count "global_limit" s ≡ 0 → Reach (record { live = []; limiter = s })
    next : {v w : World} → Reach v → Step v w → Reach w

  IsBounded : World → Type 0
  IsBounded w =
      (I.count "global_limit" w.limiter ≡ length w.live)
      × (going_upstream w.live ≤ max_concurrent_req)

  module _ (laws : IsCounter P.Guard I "global_limit") where
    enter-IsBounded :
        (w : World)
        → IsBounded w
        → IsBounded
            (record { live = (enter P I w.limiter).0 ∷ w.live; limiter = (enter P I w.limiter).1 })
    unfolding IsBounded enter
    enter-IsBounded w (counted, bound) = (
      rw (laws.incr_state w.limiter, counted) (omega arith),
      ground (arith, laws.incr_count w.limiter, counted, bound, going_upstream-length w.live),
    )

    step-IsBounded : {v w : World} → Step v w → IsBounded v → IsBounded w
    unfolding IsBounded
    step-IsBounded Step.arrives h = enter-IsBounded _ h
    step-IsBounded (Step.ends es fs e s) (counted, bound) = (
      rw (laws.drop_count s (guard_of e), counted, length-remove es fs e) (omega arith),
      omega (arith, going_upstream-remove es fs e, bound),
    )

    reach-IsBounded : {w : World} → Reach w → IsBounded w
    unfolding IsBounded
    reach-IsBounded (Reach.start h) = (h, omega arith)
    reach-IsBounded (Reach.next r s) = step-IsBounded s (reach-IsBounded r)

    -- However requests arrive and end, if the limiter counts its guards then the count is the number of
    -- requests that hold one, at most two of them go upstream, and the next request is admitted
    -- exactly if fewer than two requests hold a guard.
    pub admitted_bounded :
        {w : World}
        → Reach w
        → (I.count "global_limit" w.limiter ≡ length w.live)
          × (going_upstream w.live ≤ 2)
          × ((going_upstream ((enter P I w.limiter).0 ∷ []) ≡ 1) ↔ (length w.live < 2))
    unfolding IsBounded enter
    admitted_bounded {w} r =
        let (counted, bound) = reach-IsBounded r in
        (counted, bound, ground (arith, laws.incr_count w.limiter, counted))
