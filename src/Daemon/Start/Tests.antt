-- ===== src/Daemon/Start/Tests.antt =====
-- The theorems on the command line at concrete inputs.
use pdrad.Prelude.{ℕ, ◌≡◌, refl, [], ◌∷◌, some, length}
use pdrad.Memory.{Bytes, Malloc, fault, Fault}
use pdrad.Memory.Samples.{zeroed, zeros}
use pdrad.Daemon.Start.{Texts, zeros_of, main_arguments}
use pdrad.Daemon.Start.Arguments.{no_length_given, main_arguments-Lacking}

abbrev one_address : Bytes
one_address = 0x20 ∷ zeros 15

length_one : {b : Bytes} → some one_address ≡ some b → length b ≡ 16
length_one {b} e = let p : one_address ≡ b = cc in rw (← p) refl

-- A library that reads every text as one address, and as the number 320.
abbrev texts : Texts
texts = record {
  inet_pton = λ t. some one_address;
  length-inet_pton = λ t e. length_one e;
  atoi = λ t. 320;
}

abbrev zeroed_all : ℕ → Malloc
zeroed_all n = zeroed

abbrev mac : Bytes
mac = 2 ∷ 0 ∷ 0 ∷ 0 ∷ 0 ∷ 1 ∷ []

main_arguments-Lacking_example :
    main_arguments texts ([] ∷ (b's' ∷ []) ∷ [] ∷ [] ∷ []) (zeros_of 25) ≡ fault Fault.null_pointer
main_arguments-Lacking_example =
    main_arguments-Lacking texts ([] ∷ (b's' ∷ []) ∷ [] ∷ [] ∷ []) (zeros_of 25)
      (no_length_given [] [] [] [])
