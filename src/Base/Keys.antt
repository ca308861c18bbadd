-- ===== src/Base/Keys.antt =====
-- Types with the tests that `std::map` and `std::set` use: an equality and an order, as Booleans.
use Prim.Native.Nat.{ℕ}
use mathlib.Core.Path.{◌≡◌, refl}
use mathlib.Core.Logic.{◌↔◌}
use mathlib.Core.Bool.{Bool, true, false, ◌&&◌, ◌||◌}
use mathlib.Core.List.{[], ◌∷◌}
use native.Mathlib.Omega.{arith}
use rawdishfs.Base.Tests.{◌==◌ as nat_eqb, ltb as nat_ltb, ==_iff}
use rawdishfs.Base.Word.{Bytes}

pub record Key {ℓ} (K : Type ℓ) : Type ℓ where
  pub eqb : K → K → Bool
  pub ltb : K → K → Bool
  pub eqb_iff : (a b : K) → (eqb a b ≡ true) ↔ (a ≡ b)
  pub ltb_irrefl : (a : K) → ltb a a ≡ false
  pub ltb_trans : (a b c : K) → ltb a b ≡ true → ltb b c ≡ true → ltb a c ≡ true
  pub ltb_total : (a b : K) → eqb a b ≡ false → ltb a b ≡ false → ltb b a ≡ true

abbrev pub bytes_eqb : Bytes → Bytes → Bool
bytes_eqb [] [] = true
bytes_eqb [] (b ∷ bs) = false
bytes_eqb (a ∷ as') [] = false
bytes_eqb (a ∷ as') (b ∷ bs) = nat_eqb a b && bytes_eqb as' bs

-- `operator<` of `std::string`: by the first byte that differs.
abbrev pub bytes_ltb : Bytes → Bytes → Bool
bytes_ltb [] [] = false
bytes_ltb [] (b ∷ bs) = true
bytes_ltb (a ∷ as') [] = false
bytes_ltb (a ∷ as') (b ∷ bs) = nat_ltb a b || (nat_eqb a b && bytes_ltb as' bs)

pub bytes_eqb→eq : (a b : Bytes) → bytes_eqb a b ≡ true → a ≡ b
bytes_eqb→eq [] [] h = refl
bytes_eqb→eq [] (b ∷ bs) h = cc
bytes_eqb→eq (a ∷ as') [] h = cc
bytes_eqb→eq (a ∷ as') (b ∷ bs) h = ground (arith, bytes_eqb→eq as' bs)

pub bytes_eqb_refl : (a : Bytes) → bytes_eqb a a ≡ true
bytes_eqb_refl [] = refl
bytes_eqb_refl (a ∷ as') = ground (arith, bytes_eqb_refl as')

pub bytes_eqb_iff : (a b : Bytes) → (bytes_eqb a b ≡ true) ↔ (a ≡ b)
bytes_eqb_iff a b = (bytes_eqb→eq a b, λ e. rw e (bytes_eqb_refl b))

pub bytes_ltb_irrefl : (a : Bytes) → bytes_ltb a a ≡ false
bytes_ltb_irrefl [] = refl
bytes_ltb_irrefl (a ∷ as') = ground (arith, bytes_ltb_irrefl as')

pub bytes_ltb_trans :
    (a b c : Bytes) → bytes_ltb a b ≡ true → bytes_ltb b c ≡ true → bytes_ltb a c ≡ true
bytes_ltb_trans [] [] c h k = cc
bytes_ltb_trans [] (b ∷ bs) [] h k = cc
bytes_ltb_trans [] (b ∷ bs) (c ∷ cs) h k = refl
bytes_ltb_trans (a ∷ as') [] c h k = cc
bytes_ltb_trans (a ∷ as') (b ∷ bs) [] h k = cc
bytes_ltb_trans (a ∷ as') (b ∷ bs) (c ∷ cs) h k = ground (arith, bytes_ltb_trans as' bs cs)

pub bytes_ltb_total :
    (a b : Bytes) → bytes_eqb a b ≡ false → bytes_ltb a b ≡ false → bytes_ltb b a ≡ true
bytes_ltb_total [] [] h k = cc
bytes_ltb_total [] (b ∷ bs) h k = cc
bytes_ltb_total (a ∷ as') [] h k = refl
bytes_ltb_total (a ∷ as') (b ∷ bs) h k = ground (arith, bytes_ltb_total as' bs)

pub nat_ltb_irrefl : (a : ℕ) → nat_ltb a a ≡ false
nat_ltb_irrefl a = ground arith

pub nat_ltb_trans : (a b c : ℕ) → nat_ltb a b ≡ true → nat_ltb b c ≡ true → nat_ltb a c ≡ true
nat_ltb_trans a b c h k = ground arith

pub nat_ltb_total : (a b : ℕ) → nat_eqb a b ≡ false → nat_ltb a b ≡ false → nat_ltb b a ≡ true
nat_ltb_total a b h k = ground arith

instance abbrev pub bytes_key : Key Bytes
bytes_key = record {
  eqb = bytes_eqb;
  ltb = bytes_ltb;
  eqb_iff = bytes_eqb_iff;
  ltb_irrefl = bytes_ltb_irrefl;
  ltb_trans = bytes_ltb_trans;
  ltb_total = bytes_ltb_total;
}

instance abbrev pub nat_key : Key ℕ
nat_key = record {
  eqb = nat_eqb;
  ltb = nat_ltb;
  eqb_iff = ==_iff;
  ltb_irrefl = nat_ltb_irrefl;
  ltb_trans = nat_ltb_trans;
  ltb_total = nat_ltb_total;
}

-- A host and a port, compared host first.
abbrev pub Address : Type 0
Address = Bytes × ℕ

abbrev pub address_eqb : Address → Address → Bool
address_eqb a b = bytes_eqb a.0 b.0 && nat_eqb a.1 b.1

abbrev pub address_ltb : Address → Address → Bool
address_ltb a b = bytes_ltb a.0 b.0 || (bytes_eqb a.0 b.0 && nat_ltb a.1 b.1)

pub address_eqb_iff : (a b : Address) → (address_eqb a b ≡ true) ↔ (a ≡ b)
address_eqb_iff (h, p) (k, q) =
    (λ e. ground (arith, bytes_eqb→eq h k), λ e. ground (arith, bytes_eqb_refl h))

pub address_ltb_irrefl : (a : Address) → address_ltb a a ≡ false
address_ltb_irrefl (h, p) = ground (arith, bytes_ltb_irrefl h)

pub address_ltb_trans :
    (a b c : Address) → address_ltb a b ≡ true → address_ltb b c ≡ true → address_ltb a c ≡ true
address_ltb_trans (g, p) (h, q) (i, r) x y =
    ground (arith, bytes_ltb_trans g h i, bytes_eqb→eq g h, bytes_eqb→eq h i, bytes_eqb_refl g)

pub address_ltb_total :
    (a b : Address) → address_eqb a b ≡ false → address_ltb a b ≡ false → address_ltb b a ≡ true
address_ltb_total (g, p) (h, q) x y =
    ground (arith, bytes_ltb_total g h, bytes_eqb→eq g h, bytes_eqb_refl g)

instance abbrev pub address_key : Key Address
address_key = record {
  eqb = address_eqb;
  ltb = address_ltb;
  eqb_iff = address_eqb_iff;
  ltb_irrefl = address_ltb_irrefl;
  ltb_trans = address_ltb_trans;
  ltb_total = address_ltb_total;
}

pub eqb_refl {ℓ} : {K : Type ℓ} ⦃k : Key K⦄ (q : K) → k.eqb q q ≡ true
eqb_refl ⦃k⦄ q = (k.eqb_iff q q).1 refl

pub eqb_ne {ℓ} : {K : Type ℓ} ⦃k : Key K⦄ (a b : K) → k.eqb a b ≡ false → k.eqb b a ≡ false
eqb_ne ⦃k⦄ a b h = ground (arith, k.eqb_iff a b, k.eqb_iff b a)
