-- ===== src/Daemon/Program/Kinds.antt =====
-- What the kind of a step tells of it.
use pdrad.Prelude.{ℕ, ◌≡◌, ◌≢◌, refl, subst, true}
use pdrad.Memory.{done, load8}
use pdrad.Daemon.Threads.{
  Thread, requester, System, Step, lock_requester, request, set_preferred, set_valid,
  set_prefix_length, unlock_requester, end_requester, launch, query_address, prepare,
  lock_announcer, copy_prefix, send, unlock_announcer, end_announcer, raise, hold, signal,
}
use pdrad.Daemon.Program.{Kind, in_loop, leaves_loop, creates, handles, kind}

-- `main` creates the announcing threads when it sees a length; the signal handler leaves the prefix and
-- the messages and sets every flag, and the thread that requests leaves the messages.
abbrev Says : Kind → System → System → Type 0
Says creates s t = (l : ℕ) × (load8 s.prefix 8 ≡ done l) × (l ≢ 0)
Says handles s t =
    (t.prefix ≡ s.prefix) × (t.messages ≡ s.messages) × ((x : Thread) → t.cancelled x ≡ true)
Says (in_loop requester) s t = t.messages ≡ s.messages
Says (leaves_loop requester) s t = t.messages ≡ s.messages
Says _ s t = Unit

says : {s t : System} (st : Step s t) → Says (kind st) s t
unfolding kind
says (lock_requester e c m) = refl
says (request node_fits base ms env net buffer e r) = tt
says (set_preferred e c) = refl
says (set_valid e c) = refl
says (set_prefix_length e c) = refl
says (unlock_requester e) = refl
says (end_requester e c) = refl
says (launch {l} e f h n) = (l, h, n)
says (query_address a connect getsockname e c k) = tt
says (prepare a ioctl packets dst e d h q) = tt
says (lock_announcer a e m) = tt
says (copy_prefix a e r) = tt
says (send a ms e hl hv hf hs) = tt
says (unlock_announcer a e) = tt
says (end_announcer a e c) = tt
says (raise flags up) = tt
says (hold hs) = tt
says (signal) = (refl, refl, λ x. refl)

pub creates_on :
    {s t : System} (st : Step s t)
    → kind st ≡ creates
    → (l : ℕ) × (load8 s.prefix 8 ≡ done l) × (l ≢ 0)
creates_on {s} {t} st k = subst (λ x. Says x s t) k (says st)

pub handles_on :
    {s t : System} (st : Step s t)
    → kind st ≡ handles
    → (t.prefix ≡ s.prefix) × (t.messages ≡ s.messages)
handles_on {s} {t} st k = let (e, f, g) = subst (λ x. Says x s t) k (says st) in (e, f)

pub in_loop_on :
    {s t : System} (st : Step s t) → kind st ≡ in_loop requester → t.messages ≡ s.messages
in_loop_on {s} {t} st k = subst (λ x. Says x s t) k (says st)

pub leaves_loop_on :
    {s t : System} (st : Step s t) → kind st ≡ leaves_loop requester → t.messages ≡ s.messages
leaves_loop_on {s} {t} st k = subst (λ x. Says x s t) k (says st)

pub cancels_on :
    {s t : System} (st : Step s t) → kind st ≡ handles → (x : Thread) → t.cancelled x ≡ true
cancels_on {s} {t} st k = let (e, f, g) = subst (λ x. Says x s t) k (says st) in g
