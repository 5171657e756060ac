-- ===== src/Daemon/Main/Shut.antt =====
-- From the command line, the program comes to close a socket of a thread through `utils_handler`.
use pdrad.Prelude.{
  ℕ, suc, ◌<◌, ◌≡◌, refl, sym, ap, subst, ◌∙◌, [], ◌∷◌, ◌++◌, inl, inr, none, some, false,
  Bool-cases, length, arith,
}
use pdrad.Memory.{Bytes, done}
use pdrad.Memory.Samples.{zeroed, zeros}
use pdrad.Interface.{
  Interface, ok, err, ebadf, no_address, among, remove, is_valid, close_in, close_handler,
  get_link_local_address,
}
use pdrad.Interface.Calls.{remove_self}
use pdrad.Interface.Closed.{among-remove}
use pdrad.Interface.Query.{name_stored}
use pdrad.Daemon.Setup.{Shared, enters, opening, setup_sol}
use pdrad.Daemon.Setup.Descriptors.{Fresh}
use pdrad.Daemon.Threads.{adv, sol, announcer, query_address, held}
use pdrad.Daemon.Program.{
  watching, looping, Program, shared, kind, loop_step, set_up_adv, set_up_sol, Runs, stays,
  then_move, launched,
}
use pdrad.Daemon.Program.Prepared.{bound_to, adv_enters}

-- `Thread_listenRouterSolicit` is in its loop, and its socket, which has the number in `utils_handler`,
-- is closed, in a process that goes on.
pub record IsShut (p : Program) : Type 0 where
  pub socket : ℕ
  pub other : ℕ
  pub there : p.place (announcer sol) ≡ looping (socket ∷ other ∷ [])
  pub handler : p.system.interface.handler ≡ some socket
  pub closed : among socket (held p.system) ≡ false
  pub runs : p.system.cancelled (announcer sol) ≡ false
  pub watches : p.stage ≡ watching

abbrev unreachable : ℕ
unreachable = 101

-- A query that cannot connect.
abbrev queried : Interface → Interface
queried s = (get_link_local_address s no_address (err unreachable) (err ebadf)).2

queried_lem : (s : Interface) → queried s ≡ close_handler s
unfolding get_link_local_address
queried_lem s = elim (Bool-cases (is_valid s)) [
  | inl is ↦ rw (queried, is) refl
  | inr not ↦ rw (queried, not) refl
]

sol_enters :
    (s : Shared) (name : Bytes) (h k : ℕ)
    → length name < 40
    → setup_sol s name (some h) (some k) (ok tt) (ok tt) (ok tt) (ok tt)
      ≡ done (enters (opening k (opening h s)) h)
unfolding setup_sol
sol_enters s name h k short = let (b, p, q) = name_stored name (zeros 40) short refl in rw p

remove_next : (u : ℕ) → remove u (suc u ∷ []) ≡ suc u ∷ []
remove_next u = ground arith

module _ (prefix : Bytes) (u : ℕ) (req lan : Bytes) (short : length lan < 40) where
  abbrev first_query : Interface
  first_query = queried (record (bound_to u req) { others = suc u ∷ [] })

  first_others : first_query.others ≡ suc u ∷ []
  first_others = ap (λ (i : Interface). i.others) (queried_lem _) ∙ remove_next u

  first_opened : first_query.opened ≡ []
  first_opened = ap (λ (i : Interface). i.opened) (queried_lem _) ∙ remove_self u

  first_handler : first_query.handler ≡ some u
  first_handler = ap (λ (i : Interface). i.handler) (queried_lem _)

  -- The number of the closed handler is new.
  again : Fresh u (first_query.others ++ first_query.opened)
  again = rw (first_others, first_opened) (omega arith, tt)

  further : Fresh (suc (suc u)) ((u ∷ first_query.others) ++ first_query.opened)
  further = rw (first_others, first_opened) (omega arith, (omega arith, tt))

  closes_others : (s : Interface) → s.handler ≡ some u → among u ((queried s).others) ≡ false
  closes_others s e =
      ap (λ (i : Interface). among u i.others) (queried_lem s)
      ∙ subst (λ h. among u (close_in h s.others) ≡ false) (sym e) (among-remove u s.others)

  pub static-IsShut :
      (p : Program) × Runs (launched false prefix (bound_to u req) lan none) p × IsShut p
  unfolding kind
  static-IsShut =
      let p0 = launched false prefix (bound_to u req) lan none in
      let r1 = then_move stays (
        set_up_adv (some (suc u)) zeroed (ok tt) tt refl (omega arith, tt)
          (adv_enters (shared p0) lan (suc u) short)) in
      let r2 = then_move r1 (
        loop_step (announcer adv) (query_address adv (err unreachable) (err ebadf) refl refl tt)
          refl tt refl) in
      let r3 = then_move r2 (
        set_up_sol (some u) (some (suc (suc u))) (ok tt) (ok tt) (ok tt) (ok tt) tt refl again
          further (sol_enters _ lan u (suc (suc u)) short)) in
      let r4 = then_move r3 (
        loop_step (announcer sol) (query_address sol (err unreachable) (err ebadf) refl refl tt)
          refl tt refl) in
      (
        _,
        r4,
        record {
          socket = u;
          other = suc (suc u);
          there = refl;
          handler = ap (λ (i : Interface). i.handler) (queried_lem _) ∙ first_handler;
          closed = closes_others _ first_handler;
          runs = refl;
          watches = refl;
        },
      )
