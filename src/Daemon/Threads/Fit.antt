-- ===== src/Daemon/Threads/Fit.antt =====
-- What progress rests on: sizes, and that the mutex has an owner that will unlock it.
use pdrad.Prelude.{
  ℕ, zero, suc, ◌≡◌, refl, ap, subst, ◌∙◌, List, ◌∷◌, ◌++◌, Option, none, some, Bool, true, false,
  length,
}
use pdrad.Memory.{Bytes, done}
use pdrad.Interface.{Interface, no_address, get_link_local_address, dispose}
use pdrad.Interface.Sizes.{
  HasRequest, get_hardware_address-Sized, length-get_link_local_address, query-HasRequest,
}
use pdrad.Daemon.Start.{zeros_of}
use pdrad.Daemon.Advertise.{Message}
use pdrad.Daemon.Request.{Outcome}
use pdrad.Daemon.Lease.{convert_preferred, convert_valid, set_length}
use pdrad.Daemon.Threads.{
  Announcer, adv, sol, Requesting, asleep, asking, answered, preferred_set, valid_set, settled,
  Announcing, unborn, addressed, Locals, Destination, hardware_size, idle, ready, locked, copied,
  sent, System, update, received_prefix, Step, lock_requester, request, set_preferred, set_valid,
  set_prefix_length, unlock_requester, end_requester, launch, query_address, prepare,
  lock_announcer, copy_prefix, send, unlock_announcer, end_announcer, raise, hold, signal, Reach,
  here, later, start,
}
use pdrad.Daemon.Threads.Assigned.{
  convert_preferred_total, convert_valid_total, set_length_total, length-assigned,
}
use pdrad.Daemon.Threads.Invariant.{requester_holds, announcer_holds, other, update-all}
use pdrad.Memory.Ensures.{Ensures-eq, length-read}
use pdrad.Daemon.Request.Returned.{IsLeased, request-IsLeased}
use pdrad.Address.{all_nodes_multicast, htobe_inet6}
use pdrad.Daemon.Listen.Heard.{IsHeard, IsHeard-append, append-IsHeard, receive_src_addr-IsHeard}
use pdrad.Daemon.Threads.Owner.{Owner, Owner-requesting, Owner-announcing, holds-update}

abbrev pub Heard : Type 0
Heard = List (Option (Bytes × Bytes))

-- A message goes to ff02::1, or to a sender that was heard.
abbrev pub GoesTo : Heard → Announcer → Bytes → Type 0
GoesTo heard adv dst = htobe_inet6 all_nodes_multicast ≡ done dst
GoesTo heard sol dst = IsHeard dst heard

pub GoesTo-append :
    (packets heard : Heard) (a : Announcer) (dst : Bytes)
    → GoesTo heard a dst
    → GoesTo (packets ++ heard) a dst
GoesTo-append packets heard adv dst h = h
GoesTo-append packets heard sol dst h = IsHeard-append dst packets heard h

Destination-GoesTo :
    (packets heard : Heard) (a : Announcer) (dst : Bytes)
    → Destination a packets dst
    → GoesTo (packets ++ heard) a dst
Destination-GoesTo packets heard adv dst (e, h) = h
Destination-GoesTo packets heard sol dst (buffer, l, h) =
    append-IsHeard dst packets heard (receive_src_addr-IsHeard buffer dst packets h)

-- What a round has found fits.
pub record IsLocals (heard : Heard) (a : Announcer) (l : Locals) : Type 0 where
  pub hardware : length l.hardware_addr ≡ hardware_size a
  pub source : length l.src_addr ≡ 16
  pub target : length l.dst_addr ≡ 16
  pub destination : GoesTo heard a l.dst_addr

abbrev pub HasLocals : Heard → Announcer → Announcing → Type 0
HasLocals heard a (addressed src) = length src ≡ 16
HasLocals heard a (ready l) = IsLocals heard a l
HasLocals heard a (locked l) = IsLocals heard a l
HasLocals heard a (copied l p) = IsLocals heard a l × (length p ≡ 16)
HasLocals heard a _ = Unit

IsLocals-append :
    (packets : Heard) {heard : Heard} {a : Announcer} {l : Locals}
    → IsLocals heard a l
    → IsLocals (packets ++ heard) a l
IsLocals-append packets {heard} {a} {l} v = record {
  hardware = v.hardware;
  source = v.source;
  target = v.target;
  destination = GoesTo-append packets heard a l.dst_addr v.destination;
}

HasLocals-append :
    (packets heard : Heard) (a : Announcer) (x : Announcing)
    → HasLocals heard a x
    → HasLocals (packets ++ heard) a x
HasLocals-append packets heard a (addressed src) h = h
HasLocals-append packets heard a (ready l) h = IsLocals-append packets h
HasLocals-append packets heard a (locked l) h = IsLocals-append packets h
HasLocals-append packets heard a (copied l p) (h, k) = (IsLocals-append packets h, k)
HasLocals-append packets heard a unborn h = tt
HasLocals-append packets heard a idle h = tt
HasLocals-append packets heard a Announcing.ended h = tt
HasLocals-append packets heard a sent h = tt

pub record Fit (s : System) : Type 0 where
  pub size : length s.prefix ≡ 25
  pub usable : HasRequest s.interface.request
  pub owner : Owner s.mutex s.requesting s.announcing
  pub locals : (a : Announcer) → HasLocals s.heard a (s.announcing a)

length-zeros_of : (n : ℕ) → length (zeros_of n) ≡ n
length-zeros_of zero = refl
length-zeros_of (suc n) = ap suc (length-zeros_of n)

Fit-interface :
    {s : System} → Fit s → (i : Interface) → HasRequest i.request → Fit (record s { interface = i })
Fit-interface fit i u = record {
  size = fit.size;
  usable = u;
  owner = fit.owner;
  locals = fit.locals;
}

module _ {s : System} (fit : Fit s) where
  -- A thread that requests moves on, and leaves 25 bytes.
  requesting_moves :
      (p : Bytes) (r r' : Requesting)
      → s.requesting ≡ r
      → requester_holds r ≡ requester_holds r'
      → length p ≡ 25
      → Fit (record s { prefix = p; requesting = r' })
  requesting_moves p r r' e h l = record {
    size = l;
    usable = fit.usable;
    owner =
        Owner-requesting s.mutex s.requesting r' s.announcing (ap requester_holds e ∙ h) fit.owner;
    locals = fit.locals;
  }

  announcing_moves :
      (a : Announcer) (q x : Announcing) (ms : List Message)
      → s.announcing a ≡ x
      → announcer_holds x ≡ announcer_holds q
      → HasLocals s.heard a q
      → Fit (record s { announcing = update s.announcing a q; messages = ms })
  announcing_moves a q x ms e h l = record {
    size = fit.size;
    usable = fit.usable;
    owner =
        Owner-announcing s.mutex s.requesting s.announcing (update s.announcing a q)
          (holds-update s.announcing a q x e h) fit.owner;
    locals = update-all (λ b y. HasLocals s.heard b y) s.announcing a q l (fit.locals (other a));
  }

  pub locals_at : (a : Announcer) (x : Announcing) → s.announcing a ≡ x → HasLocals s.heard a x
  locals_at a x e = subst (HasLocals s.heard a) e (fit.locals a)

  -- The same, after more packets.
  announcing_moves_hearing :
      (a : Announcer) (q x : Announcing) (packets : Heard)
      → s.announcing a ≡ x
      → announcer_holds x ≡ announcer_holds q
      → HasLocals (packets ++ s.heard) a q
      → Fit (record s { announcing = update s.announcing a q; heard = packets ++ s.heard })
  announcing_moves_hearing a q x packets e h l = record {
    size = fit.size;
    usable = fit.usable;
    owner =
        Owner-announcing s.mutex s.requesting s.announcing (update s.announcing a q)
          (holds-update s.announcing a q x e h) fit.owner;
    locals =
        update-all (λ b y. HasLocals (packets ++ s.heard) b y) s.announcing a q l
          (HasLocals-append packets s.heard (other a) (s.announcing (other a))
            (fit.locals (other a)));
  }

  length-received :
      (lease : Option Bytes) (code : ℕ) (packet buffer : Bytes)
      → IsLeased (Outcome.returned code packet buffer lease)
      → length (received_prefix s.prefix lease) ≡ 25
  length-received none code packet buffer h = fit.size
  length-received (some p) code packet buffer h = h

  Step-Fit : {t : System} → Step s t → Fit t
  unfolding dispose
  Step-Fit (lock_requester e c m) = record {
    size = fit.size;
    usable = fit.usable;
    owner = refl;
    locals = fit.locals;
  }
  Step-Fit (request node_fits base ms env net buffer {code} {packet} {buffer'} {lease} e r) =
      requesting_moves (received_prefix s.prefix lease) asking answered e refl (
        length-received lease code packet buffer'
          (Ensures-eq (request-IsLeased node_fits base ms env net buffer) r))
  Step-Fit (set_preferred {p} e c) =
      requesting_moves p answered preferred_set e refl
        (length-assigned convert_preferred s.prefix (convert_preferred_total s.prefix fit.size) c)
  Step-Fit (set_valid {p} e c) =
      requesting_moves p preferred_set valid_set e refl
        (length-assigned convert_valid s.prefix (convert_valid_total s.prefix fit.size) c)
  Step-Fit (set_prefix_length {p} e c) =
      requesting_moves p valid_set settled e refl
        (length-assigned set_length s.prefix (set_length_total s.prefix fit.size) c)
  Step-Fit (unlock_requester e) = record {
    size = fit.size;
    usable = fit.usable;
    owner = tt;
    locals = fit.locals;
  }
  Step-Fit (end_requester e c) = requesting_moves s.prefix asleep Requesting.ended e refl fit.size
  Step-Fit (launch e f h n) = record {
    size = fit.size;
    usable = fit.usable;
    owner =
        Owner-announcing s.mutex s.requesting s.announcing (λ a. idle) (unborn_holds e f) fit.owner;
    locals = λ a. tt;
  }
    where
      unborn_holds :
          s.announcing adv ≡ unborn
          → s.announcing sol ≡ unborn
          → (a : Announcer) → announcer_holds (s.announcing a) ≡ false
      unborn_holds e f adv = ap announcer_holds e
      unborn_holds e f sol = ap announcer_holds f
  Step-Fit (query_address a connect getsockname e c k) =
      let found = get_link_local_address s.interface no_address connect getsockname in
      Fit-interface
        (announcing_moves a (addressed found.1) idle s.messages e refl
          (length-get_link_local_address s.interface no_address connect getsockname refl k))
        found.2 (query-HasRequest s.interface no_address connect getsockname fit.usable)
  Step-Fit (prepare a ioctl packets dst {src = src} {interface' = i} e d h q) =
      let (l, u) =
        Ensures-eq
          (get_hardware_address-Sized s.interface s.interface.request (zeros_of (hardware_size a))
            ioctl refl fit.usable)
          q in
      let moved = announcing_moves_hearing a (ready _) (addressed src) packets e refl (record {
        hardware = l ∙ length-zeros_of (hardware_size a);
        source = locals_at a (addressed src) e;
        target = h;
        destination = Destination-GoesTo packets s.heard a dst d;
      }) in
      Fit-interface moved i u
  Step-Fit (lock_announcer a {l} e m) = record {
    size = fit.size;
    usable = fit.usable;
    owner = update_self a;
    locals =
        update-all (λ b y. HasLocals s.heard b y) s.announcing a (locked l)
          (locals_at a (ready l) e) (fit.locals (other a));
  }
    where
      update_self : (a : Announcer) → announcer_holds (update s.announcing a (locked l) a) ≡ true
      update_self adv = refl
      update_self sol = refl
  Step-Fit (copy_prefix a {l} {p} e r) =
      announcing_moves a (copied l p) (locked l) s.messages e refl
        (locals_at a (locked l) e, Ensures-eq (length-read s.prefix 9 16) r)
  Step-Fit (send a ms {l} {p} {m} e hl hv hf hs) =
      announcing_moves a sent (copied l p) (m ∷ s.messages) e refl tt
  Step-Fit (unlock_announcer a e) = record {
    size = fit.size;
    usable = fit.usable;
    owner = tt;
    locals =
        update-all (λ b y. HasLocals s.heard b y) s.announcing a idle tt (fit.locals (other a));
  }
  Step-Fit (end_announcer a e c) = announcing_moves a Announcing.ended idle s.messages e refl tt
  Step-Fit (raise flags up) = record {
    size = fit.size;
    usable = fit.usable;
    owner = fit.owner;
    locals = fit.locals;
  }
  Step-Fit (hold hs) = Fit-interface fit (record s.interface { others = hs }) fit.usable
  Step-Fit signal = record {
    size = fit.size;
    usable = fit.usable;
    owner = fit.owner;
    locals = fit.locals;
  }

pub Reach-Fit : {s t : System} → Fit s → Reach s t → Fit t
Reach-Fit fit here = fit
Reach-Fit fit (later r st) = Step-Fit (Reach-Fit fit r) st

pub start-Fit :
    (use_dhcp : Bool) (initial : Bytes) (interface : Interface)
    → length initial ≡ 25
    → HasRequest interface.request
    → Fit (start use_dhcp initial interface)
start-Fit true initial interface h u = record { size = h; usable = u; owner = tt; locals = λ a. tt }
start-Fit false initial interface h u = record {
  size = h;
  usable = u;
  owner = tt;
  locals = λ a. tt;
}
