-- ===== src/Daemon/Threads/Exact.antt =====
-- Messages that announce exactly a given prefix.
use pdrad.Prelude.{ℕ, ◌^◌, ◌<◌, ◌≡◌, ap₂, ◌∙◌, List, [], ◌∷◌, length, All}
use pdrad.Memory.{Bytes}
use pdrad.Daemon.Advertise.{Message}
use pdrad.Daemon.Advertise.Wire.{advertisement}
use pdrad.Daemon.Lease.Rounds.{shared_bytes}
use pdrad.Daemon.Lease.Shared.{shared-prefix, shared-length, shared-valid, shared-preferred}
use pdrad.Daemon.Threads.{Announcer}
use pdrad.Daemon.Threads.Fit.{Heard, GoesTo}
use pdrad.Daemon.Threads.Adverts.{IsAdvert}

-- The advertisement of this prefix, with this length and these lifetimes, from some hardware address,
-- to ff02::1 or to a sender that was heard.
pub record Advertises (heard : Heard) (preferred valid l : ℕ) (prefix : Bytes) (m : Message)
    : Type 0 where
  pub mac : Bytes
  pub six : length mac ≡ 6
  pub hop_limit : m.hop_limit ≡ 255
  pub payload : m.payload ≡ advertisement mac prefix l valid preferred
  pub sender : Announcer
  pub destination : GoesTo heard sender m.destination

module _ (heard : Heard) (preferred valid l : ℕ) (prefix : Bytes) (whole : length prefix ≡ 16)
    (valid_fits : valid < 2 ^ 32) (preferred_fits : preferred < 2 ^ 32) where
  IsAdvert-Advertises :
      (m : Message)
      → IsAdvert heard (λ shared. shared ≡ shared_bytes preferred valid l prefix) m
      → Advertises heard preferred valid l prefix m
  IsAdvert-Advertises m v =
      let e = v.published in
      let hq = shared-prefix preferred valid l prefix v.shared e whole v.has_prefix in
      let hn = shared-length preferred valid l prefix v.shared e v.has_length in
      let hv = shared-valid preferred valid l prefix v.shared e valid_fits v.has_valid in
      let hp =
        shared-preferred preferred valid l prefix v.shared e preferred_fits v.has_preferred in
      record {
        mac = v.mac;
        six = v.six;
        hop_limit = v.hop_limit;
        payload =
            v.payload
            ∙ ap₂ (λ q n. advertisement v.mac q n v.valid v.preferred) hq hn
            ∙ ap₂ (λ x y. advertisement v.mac prefix l x y) hv hp;
        sender = v.sender;
        destination = v.destination;
      }

  pub all_advertise :
      (ms : List Message)
      → All (IsAdvert heard (λ shared. shared ≡ shared_bytes preferred valid l prefix)) ms
      → All (Advertises heard preferred valid l prefix) ms
  all_advertise [] h = tt
  all_advertise (m ∷ ms) (h, hs) = (IsAdvert-Advertises m h, all_advertise ms hs)
