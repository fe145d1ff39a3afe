-- ===== src/Signature/Equality/Order.antt =====
-- What `Ord::cmp` of signatures tells apart (zvariant_utils/src/signature/mod.rs).
use zbus.Prelude.{ℕ, suc, ◌≡◌, refl, sym}
use Prim.Native.Nat.{Ordering, compare}
use Prim.Native.Nat.compare
use zbus.Signature.{Signature, Fields, no_fields, field}
use zbus.Signature.Equality.{cmp, cmp_fields}

-- No structure stands in the signature, or in any of the fields.
unfoldable pub HasNoStructure : Signature → Type 0
HasNoStructure (Signature.array child) = HasNoStructure child
HasNoStructure (Signature.maybe child) = HasNoStructure child
HasNoStructure (Signature.dict key value) = HasNoStructure key × HasNoStructure value
HasNoStructure (Signature.structure _) = ⊥
HasNoStructure _ = Unit {0}

abbrev pub AllFlat : Fields → Type 0
AllFlat no_fields = Unit {0}
AllFlat (field s fs) = HasNoStructure s × AllFlat fs

abbrev pub number : Fields → ℕ
number no_fields = 0
number (field s fs) = suc (number fs)

cmp-flat : (x y : Signature) → HasNoStructure x → cmp x y ≡ Ordering.eq
unfolding cmp HasNoStructure
cmp-flat (Signature.array a) (Signature.array b) h = cmp-flat a b h
cmp-flat (Signature.maybe a) (Signature.maybe b) h = cmp-flat a b h
cmp-flat (Signature.dict k v) (Signature.dict l w) (hk, hv) = rw (cmp-flat k l hk) (cmp-flat v w hv)
cmp-flat (Signature.structure fs) y h = absurd h
cmp-flat x y h = refl

cmp_fields-flat : (fs gs : Fields) → AllFlat fs → cmp_fields fs gs ≡ compare (number fs) (number gs)
unfolding cmp
cmp_fields-flat no_fields no_fields h = refl
cmp_fields-flat no_fields (field b gs) h = sym (compare.zero-suc (number gs))
cmp_fields-flat (field a fs) no_fields h = sym (compare.suc-zero (number fs))
cmp_fields-flat (field a fs) (field b gs) (h, hs) =
    rw (cmp-flat a b h, cmp_fields-flat fs gs hs) (sym (compare.suc-suc (number fs) (number gs)))

-- A signature in which no structure stands compares as `Equal` with every signature, one that it is
-- not equal to by `PartialEq` included; and a structure none of whose fields has a structure in it
-- compares with a structure as their numbers of fields do, whatever the fields are.
pub cmp-HasNoStructure :
    (x y : Signature) (fs gs : Fields)
    → HasNoStructure x
    → AllFlat fs
    → (cmp x y ≡ Ordering.eq)
      × (cmp (Signature.structure fs) (Signature.structure gs) ≡ compare (number fs) (number gs))
unfolding cmp
cmp-HasNoStructure x y fs gs h k = (cmp-flat x y h, cmp_fields-flat fs gs k)
