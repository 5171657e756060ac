-- ===== src/Daemon/Threads/Owner.antt =====
-- Who holds the mutex.
use pdrad.Prelude.{◌≡◌, refl, sym, ap, ◌∙◌, Option, none, some, true}
use pdrad.Daemon.Threads.{Announcer, Thread, requester, announcer, Requesting, Announcing, update}
use pdrad.Daemon.Threads.Invariant.{requester_holds, announcer_holds, update-all}

-- The owner of the mutex is where it will unlock.
abbrev pub Owner : Option Thread → Requesting → (Announcer → Announcing) → Type 0
Owner none r f = Unit
Owner (some requester) r f = requester_holds r ≡ true
Owner (some (announcer a)) r f = announcer_holds (f a) ≡ true

pub Owner-requesting :
    (m : Option Thread) (r r' : Requesting) (f : Announcer → Announcing)
    → requester_holds r ≡ requester_holds r'
    → Owner m r f
    → Owner m r' f
Owner-requesting none r r' f e o = tt
Owner-requesting (some requester) r r' f e o = sym e ∙ o
Owner-requesting (some (announcer a)) r r' f e o = o

pub Owner-announcing :
    (m : Option Thread) (r : Requesting) (f g : Announcer → Announcing)
    → ((a : Announcer) → announcer_holds (f a) ≡ announcer_holds (g a))
    → Owner m r f
    → Owner m r g
Owner-announcing none r f g e o = tt
Owner-announcing (some requester) r f g e o = o
Owner-announcing (some (announcer a)) r f g e o = sym (e a) ∙ o

pub holds-update :
    (f : Announcer → Announcing) (a : Announcer) (q x : Announcing)
    → f a ≡ x
    → announcer_holds x ≡ announcer_holds q
    → (b : Announcer) → announcer_holds (f b) ≡ announcer_holds (update f a q b)
holds-update f a q x e h =
    update-all (λ b y. announcer_holds (f b) ≡ announcer_holds y) f a q (ap announcer_holds e ∙ h)
      refl
