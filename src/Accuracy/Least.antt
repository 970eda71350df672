-- ===== src/Accuracy/Least.antt =====
-- The alignment of `_edit_align` is whole, true and least.
use ws_collab.Prelude.{
  ℕ, zero, suc, ◌+◌, ◌≤◌, ◌<◌, ◌≡◌, refl, sym, ap, ◌∙◌, inl, inr, ◌||◌, some, List, [], ◌∷◌, ◌++◌,
  append-nil, append_assoc, arith, ltb, Bool-cases, length, take, All, nat_eq, Text, text_eq,
}
use mathlib.Core.List.{reverse_aux}
use ws_collab.Accuracy.{
  Op, EditResult, errors, dp_table, add_op, turn, backtrace, Turn, equal, sub, del, ins, edit_align,
}
use ws_collab.Accuracy.Distance.{dist, ref_words, hyp_words, price, cost, IsTrue, dist-least}
use ws_collab.Accuracy.Table.{prefix}
use ws_collab.Accuracy.Trace.{IsTurned, turn-IsTurned}

ref_words-append : (os ps : List Op) → ref_words (os ++ ps) ≡ ref_words os ++ ref_words ps
unfolding ref_words
ref_words-append [] ps = refl
ref_words-append (equal r h ∷ os) ps = ap (λ t. r ∷ t) (ref_words-append os ps)
ref_words-append (sub r h ∷ os) ps = ap (λ t. r ∷ t) (ref_words-append os ps)
ref_words-append (del r ∷ os) ps = ap (λ t. r ∷ t) (ref_words-append os ps)
ref_words-append (ins h ∷ os) ps = ref_words-append os ps

hyp_words-append : (os ps : List Op) → hyp_words (os ++ ps) ≡ hyp_words os ++ hyp_words ps
unfolding hyp_words
hyp_words-append [] ps = refl
hyp_words-append (equal r h ∷ os) ps = ap (λ t. h ∷ t) (hyp_words-append os ps)
hyp_words-append (sub r h ∷ os) ps = ap (λ t. h ∷ t) (hyp_words-append os ps)
hyp_words-append (del r ∷ os) ps = hyp_words-append os ps
hyp_words-append (ins h ∷ os) ps = ap (λ t. h ∷ t) (hyp_words-append os ps)

ops-add_op : (o : Op) (e : EditResult) → (add_op o e).ops ≡ o ∷ e.ops
unfolding add_op
ops-add_op (equal r h) e = refl
ops-add_op (sub r h) e = refl
ops-add_op (del r) e = refl
ops-add_op (ins h) e = refl

errors-add_op : (o : Op) (e : EditResult) → errors (add_op o e) ≡ price o + errors e
unfolding add_op
errors-add_op (equal r h) e = omega arith
errors-add_op (sub r h) e = omega arith
errors-add_op (del r) e = omega arith
errors-add_op (ins h) e = omega arith

-- What the backtrace comes to, from two indices and what has been found behind them.
record IsTraced (ref hyp : List Text) (i j : ℕ) (found result : EditResult) : Type 0 where
  ref_kept : ref_words result.ops ≡ take i ref ++ ref_words found.ops
  hyp_kept : hyp_words result.ops ≡ take j hyp ++ hyp_words found.ops
  all_true : All IsTrue found.ops → All IsTrue result.ops
  counted : errors result ≡ dist (prefix ref i) (prefix hyp j) + errors found
  paid : cost result.ops + errors found ≡ errors result + cost found.ops

IsTraced-turn :
    (ref hyp : List Text) (i j : ℕ) (t : Turn) (found result : EditResult)
    → IsTurned ref hyp i j t
    → IsTraced ref hyp t.i t.j (add_op t.op found) result
    → IsTraced ref hyp i j found result
unfolding cost
IsTraced-turn ref hyp i j t found result d s =
    let os = ops-add_op t.op found in
    let more = errors-add_op t.op found in
    record {
      ref_kept =
          s.ref_kept
          ∙ ap (λ x. take t.i ref ++ ref_words x) os
          ∙ ap (λ x. take t.i ref ++ x) (ref_words-append (t.op ∷ []) found.ops)
          ∙ sym (append_assoc (take t.i ref) (ref_words (t.op ∷ [])) (ref_words found.ops))
          ∙ ap (λ x. x ++ ref_words found.ops) (sym d.ref_taken);
      hyp_kept =
          s.hyp_kept
          ∙ ap (λ x. take t.j hyp ++ hyp_words x) os
          ∙ ap (λ x. take t.j hyp ++ x) (hyp_words-append (t.op ∷ []) found.ops)
          ∙ sym (append_assoc (take t.j hyp) (hyp_words (t.op ∷ [])) (hyp_words found.ops))
          ∙ ap (λ x. x ++ hyp_words found.ops) (sym d.hyp_taken);
      all_true = λ h. s.all_true (rw os (d.is_true, h));
      counted = omega (arith, s.counted, d.priced, more);
      paid = omega (arith, s.paid, more, ap cost os);
    }

IsTraced-end :
    (ref hyp : List Text) (i j : ℕ) (found : EditResult)
    → i ≡ 0
    → j ≡ 0
    → IsTraced ref hyp i j found found
unfolding dist
IsTraced-end ref hyp i j found a b =
    rw (a, b)
      (record {
        ref_kept = refl;
        hyp_kept = refl;
        all_true = λ h. h;
        counted = omega arith;
        paid = omega arith;
      })

backtrace-IsTraced :
    (ref hyp : List Text) (fuel i j : ℕ) (found : EditResult)
    → i ≤ length ref
    → j ≤ length hyp
    → i + j < fuel
    → (result : EditResult) × ((backtrace ref hyp (dp_table ref hyp) fuel i j found ≡ some result)
        × IsTraced ref hyp i j found result)
unfolding backtrace
backtrace-IsTraced ref hyp zero i j found h k n = absurd (omega arith)
backtrace-IsTraced ref hyp (suc fuel) i j found h k n = elim (Bool-cases (ltb 0 i || ltb 0 j)) [
  | inl p ↦
      let t = turn ref hyp (dp_table ref hyp) i j in
      let d = turn-IsTurned ref hyp i j h k (ground (arith, p)) in
      let (result, (e, s)) =
        backtrace-IsTraced ref hyp fuel t.i t.j (add_op t.op found) d.ref_within d.hyp_within
          (omega (arith, d.back)) in
      (result, (rw (backtrace, p) e, IsTraced-turn ref hyp i j t found result d s))
  | inr p ↦ (
    found,
    (
      rw (backtrace, p) refl,
      IsTraced-end ref hyp i j found (ground (arith, p)) (ground (arith, p)),
    ),
  )
]

take-length : (xs : List Text) → take (length xs) xs ≡ xs
take-length [] = refl
take-length (x ∷ xs) = ap (λ t. x ∷ t) (take-length xs)

-- An alignment: what its operations say of both sides, that equal pairs are equal, and that the errors
-- counted are what the operations cost.
pub record IsAlignment (ref hyp : List Text) (result : EditResult) : Type 0 where
  pub says_ref : ref_words result.ops ≡ ref
  pub says_hyp : hyp_words result.ops ≡ hyp
  pub all_true : All IsTrue result.ops
  pub counted : errors result ≡ cost result.ops

ref_words-reverse_aux :
    (os ps : List Op) → ref_words (reverse_aux os ps) ≡ reverse_aux (ref_words os) (ref_words ps)
unfolding ref_words
ref_words-reverse_aux [] ps = refl
ref_words-reverse_aux (equal r h ∷ os) ps = ref_words-reverse_aux os (equal r h ∷ ps)
ref_words-reverse_aux (sub r h ∷ os) ps = ref_words-reverse_aux os (sub r h ∷ ps)
ref_words-reverse_aux (del r ∷ os) ps = ref_words-reverse_aux os (del r ∷ ps)
ref_words-reverse_aux (ins h ∷ os) ps = ref_words-reverse_aux os (ins h ∷ ps)

hyp_words-reverse_aux :
    (os ps : List Op) → hyp_words (reverse_aux os ps) ≡ reverse_aux (hyp_words os) (hyp_words ps)
unfolding hyp_words
hyp_words-reverse_aux [] ps = refl
hyp_words-reverse_aux (equal r h ∷ os) ps = hyp_words-reverse_aux os (equal r h ∷ ps)
hyp_words-reverse_aux (sub r h ∷ os) ps = hyp_words-reverse_aux os (sub r h ∷ ps)
hyp_words-reverse_aux (del r ∷ os) ps = hyp_words-reverse_aux os (del r ∷ ps)
hyp_words-reverse_aux (ins h ∷ os) ps = hyp_words-reverse_aux os (ins h ∷ ps)

cost-reverse_aux : (os ps : List Op) → cost (reverse_aux os ps) ≡ cost os + cost ps
unfolding cost
cost-reverse_aux [] ps = omega arith
cost-reverse_aux (o ∷ os) ps = omega (arith, cost-reverse_aux os (o ∷ ps))

IsTrue-reverse_aux :
    (os ps : List Op) → All IsTrue os → All IsTrue ps → All IsTrue (reverse_aux os ps)
IsTrue-reverse_aux [] ps h k = k
IsTrue-reverse_aux (o ∷ os) ps h k = IsTrue-reverse_aux os (o ∷ ps) h.1 (h.0, k)

aligned :
    (ref hyp : List Text)
    → (result : EditResult) × ((edit_align ref hyp ≡ some result)
        × (IsAlignment ref hyp result
            × (errors result ≡ dist (reverse_aux ref []) (reverse_aux hyp []))))
unfolding edit_align ref_words hyp_words cost
aligned ref hyp =
    let (result, (e, s)) =
      backtrace-IsTraced ref hyp (suc (length ref + length hyp)) (length ref) (length hyp) _
        (omega arith) (omega arith) (omega arith) in
    let a = take-length ref in
    let b = take-length hyp in
    let whole : dist (prefix ref (length ref)) (prefix hyp (length hyp))
        ≡ dist (reverse_aux ref []) (reverse_aux hyp []) =
      rw (a, b) refl in
    (
      result,
      (
        e,
        (
          record {
            says_ref = s.ref_kept ∙ append-nil (take (length ref) ref) ∙ a;
            says_hyp = s.hyp_kept ∙ append-nil (take (length hyp) hyp) ∙ b;
            all_true = s.all_true tt;
            counted = omega (arith, s.paid);
          },
          omega (arith, s.counted, whole),
        ),
      ),
    )

-- The loop ends, and what it returns is an alignment of both sides whose errors are what its operations
-- cost.
pub edit_align-IsAlignment :
    (ref hyp : List Text)
    → (result : EditResult) × ((edit_align ref hyp ≡ some result) × IsAlignment ref hyp result)
edit_align-IsAlignment ref hyp = let (result, (e, (s, d))) = aligned ref hyp in (result, (e, s))

-- No operations that say the same of both sides, with equal pairs that are equal, cost less than the
-- errors that are counted.
pub edit_align-least :
    (os : List Op)
    → All IsTrue os
    → (result : EditResult) × ((edit_align (ref_words os) (hyp_words os) ≡ some result)
        × (errors result ≤ cost os))
unfolding ref_words hyp_words cost
edit_align-least os h =
    let (result, (e, (s, d))) = aligned (ref_words os) (hyp_words os) in
    let back = reverse_aux os [] in
    let least = dist-least back (IsTrue-reverse_aux os [] h tt) in
    let same : dist (ref_words back) (hyp_words back)
        ≡ dist (reverse_aux (ref_words os) []) (reverse_aux (hyp_words os) []) =
      rw (ref_words-reverse_aux os [], hyp_words-reverse_aux os []) refl in
    (result, (e, omega (arith, least, same, d, cost-reverse_aux os [])))
