-- ===== src/Interface/Closed.antt =====
-- A descriptor that was closed is not opened again.
use pdrad.Prelude.{
  ℕ, ◌≡◌, ◌≢◌, refl, sym, ap, ◌∙◌, subst, List, [], ◌∷◌, Option, none, some, true, false, arith,
}
use pdrad.Memory.{Bytes, done, Malloc}
use pdrad.Memory.Access.{done-injective}
use pdrad.Memory.Ensures.{Ensures-eq}
use pdrad.Interface.{
  Answer, Request, null, freed, live, Interface, among, remove, is_open, close_in, on_handler,
  close_handler, is_started, einval, ebadf, init, get_link_local_address, dispose, Call, init_call,
  hardware_call, link_local_call, dispose_call, CallPath, no_calls, then_call,
}
use pdrad.Interface.Calls.{not_open, hardware-keeps, connected-keeps}

-- No descriptor, in nobody's hands, and `utils_Init` was called before.
pub record IsClosed (s : Interface) : Type 0 where
  pub called : s.request ≢ null
  pub nothing : s.opened ≡ []
  pub apart : is_open s.handler s.others ≡ false

started_lem : (h : Option ℕ) (r : Request) → r ≢ null → is_started h r ≡ true
started_lem none null n = absurd (n refl)
started_lem none freed n = refl
started_lem none (live b) n = refl
started_lem (some h) r n = refl

init_again :
    (s : Interface) (name : Bytes) (socket : Option ℕ) (m : Malloc) (setsockopt : Answer (Unit {0}))
    → s.request ≢ null
    → init s name socket m setsockopt ≡ done (einval, s)
unfolding init
init_again s name socket m setsockopt n = rw (started_lem s.handler s.request n)

close_nothing : (h : Option ℕ) → close_in h [] ≡ []
close_nothing none = refl
close_nothing (some h) = refl

pub among-remove : (h : ℕ) (xs : List ℕ) → among h (remove h xs) ≡ false
among-remove h [] = refl
among-remove h (x ∷ xs) = ground (arith, among-remove h xs)

close_apart : (h : Option ℕ) (xs : List ℕ) → is_open h (close_in h xs) ≡ false
close_apart none xs = refl
close_apart (some h) xs = among-remove h xs

close-IsClosed : {s : Interface} → IsClosed s → IsClosed (close_handler s)
close-IsClosed {s} v = record {
  called = v.called;
  nothing = ap (close_in s.handler) v.nothing ∙ close_nothing s.handler;
  apart = close_apart s.handler s.others;
}

Call-IsClosed : {s t : Interface} → IsClosed s → Call s t → IsClosed t
unfolding get_link_local_address dispose
Call-IsClosed {s} {t} v (init_call name socket m setsockopt {e} q) =
    let same : (e, t) ≡ (einval, s) =
      done-injective (sym q ∙ init_again s name socket m setsockopt v.called) in
    subst IsClosed (sym (ap (λ (o : ℕ × Interface). o.1) same)) v
Call-IsClosed {s} v (hardware_call hw_address ioctl e) =
    Ensures-eq
      (hardware-keeps IsClosed s s.request hw_address ioctl refl
        (λ b c q. record { called = λ k. cc; nothing = v.nothing; apart = v.apart }))
      e
Call-IsClosed {s} v (link_local_call address connect getsockname) =
    connected-keeps IsClosed s address (on_handler s connect) getsockname v (close-IsClosed v)
Call-IsClosed v dispose_call = close-IsClosed v

pub CallPath-IsClosed : {s t : Interface} → IsClosed s → CallPath s t → IsClosed t
CallPath-IsClosed v no_calls = v
CallPath-IsClosed v (then_call r c) = Call-IsClosed (CallPath-IsClosed v r) c

pub closed_refused :
    (s : Interface) (address : Bytes) (connect : Answer (Unit {0})) (getsockname : Answer Bytes)
    → IsClosed s
    → get_link_local_address s address connect getsockname ≡ (ebadf, address, close_handler s)
unfolding get_link_local_address
closed_refused s address connect getsockname v = rw (v.nothing, not_open s.handler, v.apart)
