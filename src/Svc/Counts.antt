-- ===== src/Svc/Counts.antt =====
-- What the configuration commands of `svc` (avr/fw/main.cpp) store: counts, ROM codes, message objects.
use byt.Base.{
  ℕ, zero, suc, ◌+◌, ◌-◌, ◌<◌, ◌≤◌, ◌≡◌, inl, inr, refl, sym, subst, ==_iff, ◌∙◌, false, ◌&&◌, List,
  [], ◌∷◌, ◌++◌, length, length-set, ltb, leb, ◌==◌, if◌then◌else◌, get_or, set, get_or-set_self,
  get_or-set_ne, All, bit_or, Bool-cases, arith,
}
use Prim.Native.Nat.{bit_or-bitwise}
use byt.Crc.{crc_from}
use byt.Crc.OneWire.{IsByte, crc_from-append_self}
use byt.Svc.State.{Fw, arg, push, reply_len}
use byt.Svc.Config.{
  no_mob, mob_size, enable_mob, enable_mobs, enable_can_pv_exchange, set_alloc_counts,
  get_alloc_counts, set_ow_obj_rom_code, rom_data,
}
use byt.Svc.Dispatch.{Env, execute, svc, can_tx_svc}

-- The counts of a `CmdSetAllocCounts` come back in the answer to a later `CmdGetAllocCounts`, in order,
-- whatever the message of the latter holds after its code.
pub set_alloc_counts-get :
    (env : Env) (a b c d e f g p q r u v w x : ℕ) (s : Fw)
    → s.msg ≡ 1 ∷ a ∷ b ∷ c ∷ d ∷ e ∷ f ∷ g ∷ []
    → let done = svc env false s in
      (svc env false (record done { msg = 2 ∷ p ∷ q ∷ r ∷ u ∷ v ∷ w ∷ x ∷ [] })).sent
      ≡ (2 ∷ a ∷ b ∷ c ∷ d ∷ e ∷ f ∷ g ∷ []) ∷ done.sent
unfolding svc can_tx_svc execute set_alloc_counts get_alloc_counts arg push reply_len
set_alloc_counts-get env a b c d e f g p q r u v w x s h = rw h refl

-- A ROM code that is configured is stored as eight bytes whose 1-wire checksum is 0, and the answer
-- carries the checksum.
pub set_ow_obj_rom_code_lem :
    (env : Env) (i a b c d e f : ℕ) (s : Fw)
    → s.msg ≡ 5 ∷ i ∷ a ∷ b ∷ c ∷ d ∷ e ∷ f ∷ []
    → All IsByte (a ∷ b ∷ c ∷ d ∷ e ∷ f ∷ [])
    → i < length s.ow_temp_sensors
    → let t = svc env false s in
      let code = 0x28 ∷ a ∷ b ∷ c ∷ d ∷ e ∷ f ∷ [] in
      (get_or t.ow_temp_sensors i [] ≡ code ++ crc_from 0 code ∷ [])
      × (crc_from 0 (get_or t.ow_temp_sensors i []) ≡ 0)
      × (t.sent ≡ (5 ∷ crc_from 0 code ∷ []) ∷ s.sent)
unfolding svc can_tx_svc execute set_ow_obj_rom_code rom_data arg reply_len
set_ow_obj_rom_code_lem env i a b c d e f s h bytes inside =
    let code = 0x28 ∷ a ∷ b ∷ c ∷ d ∷ e ∷ f ∷ [] in
    let stored : List ℕ = code ++ crc_from 0 code ∷ [] in
    let found : get_or (set s.ow_temp_sensors i stored) i [] ≡ stored =
      get_or-set_self s.ow_temp_sensors i stored [] inside in
    rw h (found, rw found (crc_from-append_self 0 code (omega arith) (omega arith, bytes)), refl)

same_size : (mode mob j : ℕ) (s : Fw) → mob_size j (enable_mob mode mob s) ≡ mob_size j s
unfolding enable_mob mob_size
same_size mode mob j s = refl

-- One object enabled.
enable_mob_lem :
    (mode mob j : ℕ) (s : Fw)
    → j < length s.mobs
    → (get_or (enable_mob mode mob s).mobs j no_mob).cdmob
      ≡ (if mob == j then bit_or mode (mob_size j s) else (get_or s.mobs j no_mob).cdmob)
unfolding enable_mob
enable_mob_lem mode mob j s h = elim (Bool-cases (mob == j)) [
  | inl e ↦
      let q : mob ≡ j = (==_iff mob j).0 e in
      subst
        (λ k.
          (get_or
            (set s.mobs k (record (get_or s.mobs k no_mob) { cdmob = bit_or mode (mob_size k s) }))
            j no_mob).cdmob
          ≡ (if k == j then bit_or mode (mob_size j s) else (get_or s.mobs j no_mob).cdmob))
        (sym q)
        (rw
          (get_or-set_self s.mobs j
            (record (get_or s.mobs j no_mob) { cdmob = bit_or mode (mob_size j s) }) no_mob h)
          (ground arith))
  | inr e ↦
      rw
        (get_or-set_ne s.mobs mob j
          (record (get_or s.mobs mob no_mob) { cdmob = bit_or mode (mob_size mob s) }) no_mob
          (λ q. ground (arith, q)))
        (rw e refl)
]

enable_mob-length : (mode mob : ℕ) (s : Fw) → length (enable_mob mode mob s).mobs ≡ length s.mobs
unfolding enable_mob
enable_mob-length mode mob s = length-set s.mobs mob _

enable_mobs_lem :
    (mode n mob j : ℕ) (s : Fw)
    → j < length s.mobs
    → (get_or (enable_mobs mode n mob s).mobs j no_mob).cdmob ≡ (
        if leb mob j && ltb j (mob + n)
        then bit_or mode (mob_size j s)
        else (get_or s.mobs j no_mob).cdmob)
unfolding enable_mobs
enable_mobs_lem mode zero mob j s h = ground arith
enable_mobs_lem mode (suc n) mob j s h =
    let t = enable_mob mode mob s in
    let long : j < length t.mobs = omega (arith, enable_mob-length mode mob s) in
    ground (
      arith,
      enable_mobs_lem mode n (mob + 1) j t long,
      enable_mob_lem mode mob j s h,
      same_size mode mob j s,
    )

or-zero : (x : ℕ) → bit_or 0 x ≡ x
or-zero x = simp bit_or-bitwise

mob_size-kept : (mode n mob j : ℕ) (s : Fw) → mob_size j (enable_mobs mode n mob s) ≡ mob_size j s
unfolding enable_mobs
mob_size-kept mode zero mob j s = refl
mob_size-kept mode (suc n) mob j s =
    mob_size-kept mode n (mob + 1) j (enable_mob mode mob s) ∙ same_size mode mob j s

mobs-kept : (mode n mob : ℕ) (s : Fw) → length (enable_mobs mode n mob s).mobs ≡ length s.mobs
unfolding enable_mobs
mobs-kept mode zero mob s = refl
mobs-kept mode (suc n) mob s =
    mobs-kept mode n (mob + 1) (enable_mob mode mob s) ∙ enable_mob-length mode mob s

-- `enableCanPvExchange` makes the objects below `mob_first_tx` receivers (CONMOB1) and gives every
-- object below `mob_count` the size of its part of the process image; the other objects of the
-- controller keep their control word.
pub enable_can_pv_exchange_lem :
    (j : ℕ) (s : Fw)
    → j < length s.mobs
    → s.mob_first_tx ≤ s.mob_count
    → (get_or (enable_can_pv_exchange s).mobs j no_mob).cdmob ≡ (
        if ltb j s.mob_first_tx
        then bit_or 128 (mob_size j s)
        else if ltb j s.mob_count
        then mob_size j s
        else (get_or s.mobs j no_mob).cdmob)
unfolding enable_can_pv_exchange
enable_can_pv_exchange_lem j s h k =
    let t = enable_mobs 128 s.mob_first_tx 0 s in
    let long : j < length t.mobs = omega (arith, mobs-kept 128 s.mob_first_tx 0 s) in
    ground (
      arith,
      enable_mobs_lem 0 (s.mob_count - s.mob_first_tx) s.mob_first_tx j t long,
      enable_mobs_lem 128 s.mob_first_tx 0 j s h,
      mob_size-kept 128 s.mob_first_tx 0 j s,
      or-zero (mob_size j t),
    )
