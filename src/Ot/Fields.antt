-- ===== src/Ot/Fields.antt =====
-- Each field of an OpenTherm frame is read as it was written, bytd/src/OtFrame.cpp.
use byt.Base.{
  ℕ, zero, suc, ◌+◌, ◌-◌, ◌*◌, ◌/◌, ◌%◌, ◌^◌, ◌<◌, ◌≡◌, refl, sym, ap, ap₂, ◌∙◌, Bool, true, max,
  bit_and, bit_at, bit_at-and, bit_at-or, bit_at-le, byte_eq, all_below, all_below_sound,
  low_bits_lem, ◌==◌, ==_iff, not, ltb, leb, ◌&&◌, if◌then◌else◌, arith,
}
use native.Mathlib.Nat.{pow-suc, one-le-pow, div-div-eq-div-mul}
use byt.Ot.Frame.{set_type, get_type, set_id, get_id, set_v, get_v, make}

same_bit : {a b i j : ℕ} → a ≡ b → i ≡ j → bit_at a i ≡ bit_at b j
same_bit p q = ap₂ (λ a i. bit_at a i) p q

bit_step : (x i : ℕ) → bit_at x (suc i) ≡ bit_at (x / 2) i
unfolding bit_at
bit_step x i = refl

double : (k x : ℕ) → x * 2 ^ suc k ≡ 2 * (x * 2 ^ k)
double k x = omega (arith, ap (λ q. x * q) (pow-suc 2 k))

-- The bits of a number divided by a power of two, and of one multiplied by it.
bit_at-shift : (k x i : ℕ) → bit_at (x / 2 ^ k) i ≡ bit_at x (k + i)
bit_at-shift zero x i = same_bit (omega arith) (omega arith)
bit_at-shift (suc k) x i =
    let p : 2 ^ suc k ≡ 2 * 2 ^ k = omega (arith, pow-suc 2 k) in
    let e : x / 2 ^ suc k ≡ x / 2 / 2 ^ k =
      ap (λ q. x / q) p ∙ sym (div-div-eq-div-mul x 2 (2 ^ k)) in
    let j : suc (k + i) ≡ suc k + i = omega arith in
    same_bit {i = i} e refl
    ∙ bit_at-shift k (x / 2) i
    ∙ sym (bit_step x (k + i))
    ∙ same_bit {a = x} refl j

bit_at-times : (k x i : ℕ) → bit_at (x * 2 ^ k) (k + i) ≡ bit_at x i
bit_at-times zero x i = same_bit (omega arith) (omega arith)
bit_at-times (suc k) x i =
    let half : x * 2 ^ suc k / 2 ≡ x * 2 ^ k = omega (arith, double k x) in
    let j : suc k + i ≡ suc (k + i) = omega arith in
    same_bit {a = x * 2 ^ suc k} refl j
    ∙ bit_step (x * 2 ^ suc k) (k + i)
    ∙ same_bit {i = k + i} half refl
    ∙ bit_at-times k x i

bit_at-times_low : (k x i : ℕ) → i < k → bit_at (x * 2 ^ k) i ≡ 0
unfolding bit_at
bit_at-times_low zero x i h = absurd (omega (arith, h))
bit_at-times_low (suc k) x zero h = omega (arith, double k x)
bit_at-times_low (suc k) x (suc i) h =
    let half : x * 2 ^ suc k / 2 ≡ x * 2 ^ k = omega (arith, double k x) in
    same_bit {i = i} half refl ∙ bit_at-times_low k x i (omega (arith, h))

bit_at-none : (i : ℕ) → bit_at 0 i ≡ 0
unfolding bit_at
bit_at-none zero = refl
bit_at-none (suc i) = bit_at-none i

bit_at-above : (k x i : ℕ) → x < 2 ^ k → bit_at x (k + i) ≡ 0
bit_at-above zero x i h = same_bit {j = i} (omega (arith, h)) (omega arith) ∙ bit_at-none i
bit_at-above (suc k) x i h =
    let j : suc k + i ≡ suc (k + i) = omega arith in
    same_bit {a = x} refl j
    ∙ bit_step x (k + i)
    ∙ bit_at-above k (x / 2) i (omega (arith, h, pow-suc 2 k))

-- The bits of the masks.
mask_bits :
    (m n : ℕ) (keep : ℕ → Bool)
    → all_below n (λ j. bit_at m j == (if keep j then 1 else 0)) ≡ true
    → (i : ℕ) → i < n
    → bit_at m i ≡ (if keep i then 1 else 0)
mask_bits m n keep table i h =
    (==_iff (bit_at m i) (if keep i then 1 else 0)).0
      (all_below_sound n (λ j. bit_at m j == (if keep j then 1 else 0)) i table h)

-- What each writing does to the bits.
set_v-bits :
    (v d i : ℕ)
    → i < 32
    → bit_at (set_v v d) i ≡ max (if leb 16 i then bit_at d i else 0) (bit_at v i)
unfolding set_v
set_v-bits v d i h =
    let m = mask_bits 0xFFFF0000 32 (λ j. leb 16 j) (unfold all_below bit_at in refl) i h in
    bit_at-or (bit_and d 0xFFFF0000) v i
    ∙ ap (λ q. max q (bit_at v i)) (bit_at-and d 0xFFFF0000 i ∙ ground (arith, m, bit_at-le d i))

set_id-bits :
    (id d i : ℕ)
    → i < 32
    → bit_at (set_id id d) i
      ≡ max (if leb 16 i && ltb i 24 then 0 else bit_at d i) (bit_at (bit_and id 0xFF * 2 ^ 16) i)
unfolding set_id
set_id-bits id d i h =
    let m =
      mask_bits 0xFF00FFFF 32 (λ j. not (leb 16 j && ltb j 24)) (unfold all_below bit_at in refl) i
        h in
    bit_at-or (bit_and d 0xFF00FFFF) (bit_and id 0xFF * 2 ^ 16) i
    ∙ ap (λ q. max q (bit_at (bit_and id 0xFF * 2 ^ 16) i))
        (bit_at-and d 0xFF00FFFF i ∙ ground (arith, m, bit_at-le d i))

set_type-bits :
    (t d i : ℕ)
    → i < 32
    → bit_at (set_type t d) i
      ≡ max (if ltb i 24 then bit_at d i else 0) (bit_at (t % 256 * 2 ^ 24) i)
unfolding set_type
set_type-bits t d i h =
    let m = mask_bits 0x00FFFFFF 32 (λ j. ltb j 24) (unfold all_below bit_at in refl) i h in
    bit_at-or (bit_and d 0x00FFFFFF) (t % 256 * 2 ^ 24) i
    ∙ ap (λ q. max q (bit_at (t % 256 * 2 ^ 24) i))
        (bit_at-and d 0x00FFFFFF i ∙ ground (arith, m, bit_at-le d i))

low : (k x : ℕ) → bit_and x (2 ^ k - 1) < 2 ^ k
low k x = omega (arith, low_bits_lem k x, one-le-pow k 2)

-- A bit of a field that is taken out by a shift and a mask.
field : (k m w i : ℕ) → bit_at m i ≡ 1 → bit_at (bit_and (w / 2 ^ k) m) i ≡ bit_at w (k + i)
field k m w i e =
    bit_at-and (w / 2 ^ k) m i ∙ omega (arith, e, bit_at-le (w / 2 ^ k) i) ∙ bit_at-shift k w i

v_above : (v d i : ℕ) → v < 65536 → i < 16 → bit_at (set_v v d) (16 + i) ≡ bit_at d (16 + i)
v_above v d i hv h = ground (
  arith,
  set_v-bits v d (16 + i) (omega (arith, h)),
  bit_at-above 16 v i hv,
  bit_at-le d (16 + i),
)

id_at : (id d i : ℕ) → id < 256 → i < 8 → bit_at (set_id id d) (16 + i) ≡ bit_at id i
id_at id d i hi h =
    let same : bit_and id 0xFF ≡ id = low_bits_lem 8 id ∙ omega (arith, hi) in
    let here = bit_at-times 16 (bit_and id 0xFF) i ∙ ap (λ q. bit_at q i) same in
    ground (arith, set_id-bits id d (16 + i) (omega (arith, h)), here, h)

id_above : (id d i : ℕ) → id < 256 → i < 8 → bit_at (set_id id d) (24 + i) ≡ bit_at d (24 + i)
id_above id d i hi h =
    let j : 24 + i ≡ 16 + (8 + i) = omega arith in
    let small : bit_and id 0xFF < 2 ^ 8 = low 8 id in
    let none =
      same_bit {a = bit_and id 0xFF * 2 ^ 16} refl j
      ∙ bit_at-times 16 (bit_and id 0xFF) (8 + i)
      ∙ bit_at-above 8 (bit_and id 0xFF) i small in
    ground (arith, set_id-bits id d (24 + i) (omega (arith, h)), none, bit_at-le d (24 + i), h)

type_at : (t d i : ℕ) → t < 256 → i < 8 → bit_at (set_type t d) (24 + i) ≡ bit_at t i
type_at t d i ht h =
    let same : t % 256 ≡ t = omega (arith, ht) in
    let here = bit_at-times 24 (t % 256) i ∙ ap (λ q. bit_at q i) same in
    ground (arith, set_type-bits t d (24 + i) (omega (arith, h)), here, h)

-- The fields of a frame are those that it was made of.
pub make_lem :
    (t id v : ℕ)
    → t < 128
    → id < 256
    → v < 65536
    → (get_type (make t id v) ≡ t) × (get_id (make t id v) ≡ id) × (get_v (make t id v) ≡ v)
unfolding make get_type get_id get_v
make_lem t id v ht hi hv =
    let a = set_type t 0x7FFF7BAD in
    let b = set_id id a in
    let w = set_v v b in
    (
      byte_eq 7 (bit_and (w / 2 ^ 24) 0x7F) t (low 7 (w / 2 ^ 24)) ht (λ i h.
          let m = mask_bits 0x7F 7 (λ j. true) (unfold all_below bit_at in refl) i h in
          let j : 24 + i ≡ 16 + (8 + i) = omega arith in
          field 24 0x7F w i m
          ∙ same_bit {a = w} refl j
          ∙ v_above v b (8 + i) hv (omega (arith, h))
          ∙ same_bit {a = b} refl (sym j)
          ∙ id_above id a i hi (omega (arith, h))
          ∙ type_at t 0x7FFF7BAD i (omega (arith, ht)) (omega (arith, h))),
      byte_eq 8 (bit_and (w / 2 ^ 16) 0xFF) id (low 8 (w / 2 ^ 16)) hi (λ i h.
          let m = mask_bits 0xFF 8 (λ j. true) (unfold all_below bit_at in refl) i h in
          field 16 0xFF w i m ∙ v_above v b i hv (omega (arith, h)) ∙ id_at id a i hi h),
      byte_eq 16 (bit_and w 0xFFFF) v (low 16 w) hv (λ i h.
          let m = mask_bits 0xFFFF 16 (λ j. true) (unfold all_below bit_at in refl) i h in
          bit_at-and w 0xFFFF i
          ∙ ground (arith, m, set_v-bits v b i (omega (arith, h)), bit_at-le w i, bit_at-le v i)),
    )
