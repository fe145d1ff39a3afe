-- ===== src/Signature/Parser/Fold.antt =====
-- The list that `many` folds its signatures into (zvariant_utils/src/signature/mod.rs).
use zbus.Prelude.{
  ℕ, ◌≡◌, refl, ap, sym, ◌∙◌, Bool, true, false, List, ◌++◌, append-nil, append_assoc,
}
use zbus.Signature.{
  Signature, Fields, no_fields, field, push, write_as_string, write_fields, display, IsComplete,
  AllComplete,
}
use zbus.Signature.Parser.{SignatureList, add_signature}

unfoldable pub fold_fields : Bool → SignatureList → Fields → SignatureList
fold_fields top acc no_fields = acc
fold_fields top acc (field s fs) = fold_fields top (add_signature top acc s) fs

pub append_fields : Fields → Fields → Fields
append_fields no_fields gs = gs
append_fields (field s fs) gs = field s (append_fields fs gs)

append_fields_nil : (fs : Fields) → append_fields fs no_fields ≡ fs
unfolding append_fields
append_fields_nil no_fields = refl
append_fields_nil (field s fs) = ap (field s) (append_fields_nil fs)

append_fields-push :
    (fs : Fields) (s : Signature) (gs : Fields)
    → append_fields (push fs s) gs ≡ append_fields fs (field s gs)
unfolding append_fields push
append_fields-push no_fields s gs = refl
append_fields-push (field t fs) s gs = ap (field t) (append_fields-push fs s gs)

pub fold_fields-structure :
    (top : Bool) (fs gs : Fields)
    → fold_fields top (SignatureList.structure fs) gs
      ≡ SignatureList.structure (append_fields fs gs)
unfolding fold_fields add_signature
fold_fields-structure top fs no_fields = ap SignatureList.structure (sym (append_fields_nil fs))
fold_fields-structure true fs (field s gs) =
    fold_fields-structure true (push fs s) gs
    ∙ ap SignatureList.structure (append_fields-push fs s gs)
fold_fields-structure false fs (field s gs) =
    fold_fields-structure false (push fs s) gs
    ∙ ap SignatureList.structure (append_fields-push fs s gs)

pub fold_fields-nested :
    (s : Signature) (fs : Fields)
    → fold_fields false SignatureList.unit (field s fs) ≡ SignatureList.structure (field s fs)
unfolding fold_fields add_signature append_fields
fold_fields-nested s fs = fold_fields-structure false (field s no_fields) fs

pub fold_fields-top :
    (s t : Signature) (fs : Fields)
    → fold_fields true SignatureList.unit (field s (field t fs))
      ≡ SignatureList.structure (field s (field t fs))
unfolding fold_fields add_signature append_fields
fold_fields-top s t fs = fold_fields-structure true (field s (field t no_fields)) fs

-- The run of a fold over the texts of one or more complete signatures.
abbrev pub FoldReads : Bool → SignatureList → SignatureList → List ℕ → List ℕ → Type 0
FoldReads top acc out s r =
    (x : Signature) × (fs : Fields) × IsComplete x
    × AllComplete fs
    × (s ≡ write_fields (field x fs) ++ r)
    × (out ≡ fold_fields top acc (field x fs))

pub FoldReads-one :
    (top : Bool) (acc out : SignatureList) (s r : List ℕ) (x : Signature)
    → IsComplete x
    → s ≡ display x ++ r
    → out ≡ add_signature top acc x
    → FoldReads top acc out s r
unfolding fold_fields write_as_string IsComplete
FoldReads-one top acc out s r x complete text e =
    (x, no_fields, complete, tt, text ∙ rw append-nil, e)

pub FoldReads-more :
    (top : Bool) (acc out : SignatureList) (s r m : List ℕ) (x : Signature)
    → IsComplete x
    → s ≡ display x ++ m
    → FoldReads top (add_signature top acc x) out m r
    → FoldReads top acc out s r
unfolding fold_fields write_as_string IsComplete
FoldReads-more top acc out s r m x complete text (y, fs, hy, hfs, more, e) = (
  x,
  field y fs,
  complete,
  (hy, hfs),
  text
      ∙ ap (λ t. display x ++ t) more
      ∙ sym (append_assoc (display x) (write_fields (field y fs)) r),
  e,
)
