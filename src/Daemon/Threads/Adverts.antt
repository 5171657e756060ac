-- ===== src/Daemon/Threads/Adverts.antt =====
-- Every message that the threads send, byte by byte.
use pdrad.Prelude.{
  ℕ, ◌≤◌, ◌≡◌, refl, sym, ap, subst, entries, drop, ◌∙◌, List, [], ◌∷◌, ◌++◌, Bool, true, length,
  All, arith,
}
use pdrad.Memory.{Bytes, done, Malloc, read, load8, load32}
use pdrad.Memory.Laws.{entries-append-drop, length-entries}
use pdrad.Memory.Ensures.{Ensures-eq}
use pdrad.Interface.{Interface}
use pdrad.Interface.Sizes.{HasRequest}
use pdrad.Daemon.Advertise.{Message, send_router_adv}
use pdrad.Daemon.Advertise.Wire.{advertisement, length-advertised}
use pdrad.Daemon.Advertise.Only.{send_router_adv-Only}
use pdrad.Daemon.Threads.{
  Announcer, adv, sol, Locals, copied, System, hardware_size, Step, prepare, send, Reach, here,
  later, start,
}
use pdrad.Daemon.Threads.Invariant.{announcer_holds, Published, Inv, Copy}
use pdrad.Daemon.Threads.Fit.{Heard, GoesTo, GoesTo-append, Fit, locals_at, Reach-Fit, start-Fit}
use pdrad.Daemon.Threads.Preserved.{reachable-Inv, announcer_alone, prefix-Published}

-- An advertisement of a prefix that is `P`: of its address, and the length and the lifetimes that
-- stand before that. It goes to ff02::1, or to a sender that was heard.
pub record IsAdvert (heard : Heard) (P : Bytes → Type 0) (m : Message) : Type 0 where
  pub shared : Bytes
  pub published : P shared
  pub mac : Bytes
  pub prefix : Bytes
  pub prefix_length : ℕ
  pub valid : ℕ
  pub preferred : ℕ
  pub has_prefix : read shared 9 16 ≡ done prefix
  pub has_length : load8 shared 8 ≡ done prefix_length
  pub has_valid : load32 shared 4 ≡ done valid
  pub has_preferred : load32 shared 0 ≡ done preferred
  pub six : length mac ≡ 6
  pub hop_limit : m.hop_limit ≡ 255
  pub payload : m.payload ≡ advertisement mac prefix prefix_length valid preferred
  pub size : length m.payload ≡ 80
  pub sender : Announcer
  pub destination : GoesTo heard sender m.destination

length-advertisement :
    (mac prefix : Bytes) (n valid preferred : ℕ)
    → length mac ≡ 6
    → length prefix ≡ 16
    → length (advertisement mac prefix n valid preferred) ≡ 80
length-advertisement mac prefix n valid preferred hm hp =
    omega (arith, length-advertised mac prefix n valid preferred hm hp)

hardware_le : (a : Announcer) {n : ℕ} → n ≡ hardware_size a → 6 ≤ n
hardware_le adv e = omega arith
hardware_le sol e = omega arith

-- Nothing else can be sent.
pub sent_only :
    {s : System} (fit : Fit s) (a : Announcer) (ms : ℕ → Malloc) (l : Locals) (p : Bytes)
    (m : Message) (n valid preferred : ℕ)
    → s.announcing a ≡ copied l p
    → send_router_adv ms l.hardware_addr l.src_addr l.dst_addr p n valid preferred ≡ done m
    → m ≡ record {
      destination = l.dst_addr;
      hop_limit = 255;
      payload = advertisement (entries 6 l.hardware_addr) p n valid preferred;
    }
sent_only fit a ms l p m n valid preferred e hm =
    let (v, h) = locals_at fit a (copied l p) e in
    let split = entries-append-drop 6 l.hardware_addr (hardware_le a v.hardware) in
    Ensures-eq
      (send_router_adv-Only ms (entries 6 l.hardware_addr) (drop 6 l.hardware_addr) l.src_addr
        l.dst_addr p n valid preferred (length-entries 6 l.hardware_addr) v.source v.target h)
      (ap (λ hw. send_router_adv ms hw l.src_addr l.dst_addr p n valid preferred) (sym split) ∙ hm)

module _ {P : Bytes → Type 0} {initial : Bytes} {s : System} (inv : Inv initial s) (fit : Fit s)
    (whole : (a : Announcer) → announcer_holds (s.announcing a) ≡ true → P s.prefix) where
  send-IsAdvert :
      (a : Announcer) (ms : ℕ → Malloc) (l : Locals) (p : Bytes) (m : Message)
      (n valid preferred : ℕ)
      → s.announcing a ≡ copied l p
      → load8 s.prefix 8 ≡ done n
      → load32 s.prefix 4 ≡ done valid
      → load32 s.prefix 0 ≡ done preferred
      → send_router_adv ms l.hardware_addr l.src_addr l.dst_addr p n valid preferred ≡ done m
      → IsAdvert s.heard P m
  send-IsAdvert a ms l p m n valid preferred e hn hv hp hm =
      let (v, h) = locals_at fit a (copied l p) e in
      let mac = entries 6 l.hardware_addr in
      let six = length-entries 6 l.hardware_addr in
      let made = sent_only fit a ms l p m n valid preferred e hm in
      record {
        shared = s.prefix;
        published = whole a (rw e refl);
        mac = mac;
        prefix = p;
        prefix_length = n;
        valid = valid;
        preferred = preferred;
        has_prefix = subst (Copy s.prefix) e (inv.copies a);
        has_length = hn;
        has_valid = hv;
        has_preferred = hp;
        six = six;
        hop_limit = ap (λ (x : Message). x.hop_limit) made;
        payload = ap (λ (x : Message). x.payload) made;
        size =
            ap (λ (x : Message). length x.payload) made
            ∙ length-advertisement mac p n valid preferred six h;
        sender = a;
        destination =
            subst (GoesTo s.heard a) (sym (ap (λ (x : Message). x.destination) made)) v.destination;
      }

-- It stays one when more is heard.
still-IsAdvert :
    (P : Bytes → Type 0) (packets : Heard) {heard : Heard} (m : Message)
    → IsAdvert heard P m
    → IsAdvert (packets ++ heard) P m
still-IsAdvert P packets {heard} m v = record {
  shared = v.shared;
  published = v.published;
  mac = v.mac;
  prefix = v.prefix;
  prefix_length = v.prefix_length;
  valid = v.valid;
  preferred = v.preferred;
  has_prefix = v.has_prefix;
  has_length = v.has_length;
  has_valid = v.has_valid;
  has_preferred = v.has_preferred;
  six = v.six;
  hop_limit = v.hop_limit;
  payload = v.payload;
  size = v.size;
  sender = v.sender;
  destination = GoesTo-append packets heard v.sender m.destination v.destination;
}

all_still-IsAdvert :
    (P : Bytes → Type 0) (packets heard : Heard) (ms : List Message)
    → All (IsAdvert heard P) ms
    → All (IsAdvert (packets ++ heard) P) ms
all_still-IsAdvert P packets heard [] h = tt
all_still-IsAdvert P packets heard (m ∷ ms) (h, hs) =
    (still-IsAdvert P packets m h, all_still-IsAdvert P packets heard ms hs)

pub Step-IsAdvert :
    (P : Bytes → Type 0) {initial : Bytes} {s t : System}
    → Inv initial s
    → Fit s
    → ((a : Announcer) → announcer_holds (s.announcing a) ≡ true → P s.prefix)
    → Step s t
    → All (IsAdvert s.heard P) s.messages
    → All (IsAdvert t.heard P) t.messages
Step-IsAdvert P inv fit whole
      (send a ms {l = l} {p = p} {m = m} {prefix_length = n} {valid = valid} {preferred = preferred}
        e hn hv hp hm)
      sent_before =
    (send-IsAdvert inv fit whole a ms l p m n valid preferred e hn hv hp hm, sent_before)
Step-IsAdvert P inv fit whole (prepare a ioctl packets dst e d h q) sent_before =
    all_still-IsAdvert _ packets _ _ sent_before
Step-IsAdvert P inv fit whole _ sent_before = sent_before

pub threads-IsAdvert :
    (use_dhcp : Bool) (initial : Bytes) (interface : Interface) {s : System}
    → length initial ≡ 25
    → HasRequest interface.request
    → Reach (start use_dhcp initial interface) s
    → All (IsAdvert s.heard (Published initial)) s.messages
threads-IsAdvert use_dhcp initial interface size usable here = tt
threads-IsAdvert use_dhcp initial interface size usable (later r st) =
    let inv = reachable-Inv use_dhcp initial interface r in
    Step-IsAdvert _ inv (Reach-Fit (start-Fit use_dhcp initial interface size usable) r)
      (λ a h. prefix-Published inv (announcer_alone inv a h).0) st
      (threads-IsAdvert use_dhcp initial interface size usable r)
