-- ===== src/Controller/Step/Newest.antt =====
-- The steps in which the timer that was scheduled last fires, or the first future ends.
use integration_home_assista.Prelude.{ℕ, Option, List, [], ◌∷◌, ◌≡◌, refl}
use integration_home_assista.Platform.{Platform}
use integration_home_assista.Api.{Codec}
use integration_home_assista.Controller.State.{World, Controller, Timer, Future, without}
use integration_home_assista.Controller.Step.{handle_self, finish_step, Reach, next, fires, ends}

module _ {p : Platform} (w : World p) where
  abbrev pub fire_first : List Timer → Controller p → Controller p
  fire_first [] c = c
  fire_first (t ∷ _) c = handle_self w t.message (record c { timers = without t.handle c.timers })

  -- The newest pending timer fires, if there is one.
  abbrev pub fire_newest : Controller p → Controller p
  fire_newest c = fire_first c.timers c

  abbrev pub end_first : Option ℕ → List (Future p) → Controller p → Controller p
  end_first result [] c = c
  end_first result (f ∷ fs) c = finish_step w result f (record c { futures = fs })

  -- The oldest future ends with the result, if there is one.
  abbrev pub end_oldest : Option ℕ → Controller p → Controller p
  end_oldest result c = end_first result c.futures c

  fire_first-Reach :
      {codec : Codec p} (ts : List Timer) (c : Controller p)
      → c.timers ≡ ts
      → Reach codec c
      → Reach codec (fire_first ts c)
  fire_first-Reach [] c q r = r
  fire_first-Reach (t ∷ ts) c q r = next r (fires w [] ts t q refl)

  -- Both are steps of the actor.
  pub fire_newest-Reach :
      {codec : Codec p} (c : Controller p) → Reach codec c → Reach codec (fire_newest c)
  fire_newest-Reach c r = fire_first-Reach c.timers c refl r

  end_first-Reach :
      {codec : Codec p} (result : Option ℕ) (fs : List (Future p)) (c : Controller p)
      → c.futures ≡ fs
      → Reach codec c
      → Reach codec (end_first result fs c)
  end_first-Reach result [] c q r = r
  end_first-Reach result (f ∷ fs) c q r = next r (ends w result [] fs f q refl)

  pub end_oldest-Reach :
      {codec : Codec p} (result : Option ℕ) (c : Controller p)
      → Reach codec c
      → Reach codec (end_oldest result c)
  end_oldest-Reach result c r = end_first-Reach result c.futures c refl r
