-- ===== src/HttpTools/Unescape/Reading.antt =====
-- The rounds of `StripHTMLCharacters_Inplace`, src/AmmServerlib/tools/http_tools.c, that read the text.
use mathlib.Core.List.{append_assoc, append-nil}
use mathlib.Core.Path.{subst}
use ammar_server.Base.{
  ℕ, zero, suc, ◌+◌, ◌-◌, ◌≡◌, refl, sym, ap, ◌∙◌, Bool, true, false, ◌&&◌, [], ◌∷◌, ◌++◌, none,
  some, arith, Bytes, length, get_elem?, set, drop, ltb, ◌==◌, length-set, drop-drop,
  get_elem?-set_self, take-set_above, drop-set_below, get_elem?-drop, inl, inr, Bool-cases,
  Option-cases,
}
use ammar_server.HttpTools.Unescape.{escaped, write_escape, replace_escape, strip_loop}
use ammar_server.HttpTools.Unescape.Steps.{At, Writes, round-At, first_read, inside}
use ammar_server.HttpTools.Unescape.Text.{
  unescape, unescape_plain, unescape_refused, unescape_escape,
}

module _ (security : Bool) (block out slack : Bytes) (len i offset : ℕ) where
  drop_more :
      (s t : Bytes) (n : ℕ)
      → drop (i + offset) block ≡ s ++ (0 ∷ slack)
      → drop n (s ++ (0 ∷ slack)) ≡ t
      → drop (i + offset + n) block ≡ t
  drop_more s t n h e = sym (drop-drop n (i + offset) block) ∙ ap (drop n) h ∙ e

  plain_round :
      (c : ℕ) (s : Bytes)
      → At block out (c ∷ s) slack len i offset
      → (c == b'%' && ltb (i + offset) (len - 2)) ≡ false
      → Writes security block out s slack len i offset offset c
  unfolding replace_escape
  plain_round c s at e =
      let next : i + offset + 1 ≡ i + 1 + offset = omega arith in
      record {
        replaced = block;
        run = rw (first_read block (c ∷ s) slack (i + offset) at.back, e);
        size = refl;
        front = at.front;
        here = at.here;
        back =
            sym (ap (λ k. drop k block) next) ∙ drop_more (c ∷ s) (s ++ (0 ∷ slack)) 1 at.back refl;
        place = omega (arith, at.place);
      }

  read_at :
      (s : Bytes) (n x : ℕ)
      → drop (i + offset) block ≡ s ++ (0 ∷ slack)
      → get_elem? (s ++ (0 ∷ slack)) n ≡ some x
      → get_elem? block (i + offset + n) ≡ some x
  read_at s n x h e = sym (get_elem?-drop (i + offset) block n) ∙ ap (λ l. get_elem? l n) h ∙ e

  refused_round :
      (c a b : ℕ) (s : Bytes)
      → (c == b'%') ≡ true
      → At block out (c ∷ a ∷ b ∷ s) slack len i offset
      → escaped security a b ≡ none
      → Writes security block out (a ∷ b ∷ s) slack len i offset offset b'_'
  unfolding replace_escape
  refused_round c a b s q at e =
      let source = c ∷ a ∷ b ∷ s in
      let next : i + offset + 1 ≡ i + 1 + offset = omega arith in
      let size = inside block source slack (i + offset) at.back in
      let early : ltb (i + offset) (len - 2) ≡ true = ground (arith, at.place) in
      record {
        replaced = set block i b'_';
        run =
            rw
              (
                first_read block source slack (i + offset) at.back,
                q,
                early,
                read_at source 1 a at.back refl,
                read_at source 2 b at.back refl,
              )
              (ap (λ o. some (write_escape block i offset o)) e);
        size = length-set block i b'_';
        front = take-set_above i block i b'_' (omega arith) ∙ at.front;
        here = get_elem?-set_self block i b'_' (omega arith);
        back =
            drop-set_below (i + 1 + offset) block i b'_' (omega arith)
            ∙ sym (ap (λ k. drop k block) next)
            ∙ drop_more source (a ∷ b ∷ (s ++ (0 ∷ slack))) 1 at.back refl;
        place = omega (arith, at.place);
      }

  escape_round :
      (c a b v : ℕ) (s : Bytes)
      → (c == b'%') ≡ true
      → At block out (c ∷ a ∷ b ∷ s) slack len i offset
      → escaped security a b ≡ some v
      → Writes security block out s slack len i offset (offset + 2) v
  unfolding replace_escape
  escape_round c a b v s q at e =
      let source = c ∷ a ∷ b ∷ s in
      let next : i + offset + 3 ≡ i + 1 + (offset + 2) = omega arith in
      let size = inside block source slack (i + offset) at.back in
      let early : ltb (i + offset) (len - 2) ≡ true = ground (arith, at.place) in
      record {
        replaced = set block i v;
        run =
            rw
              (
                first_read block source slack (i + offset) at.back,
                q,
                early,
                read_at source 1 a at.back refl,
                read_at source 2 b at.back refl,
              )
              (ap (λ o. some (write_escape block i offset o)) e);
        size = length-set block i v;
        front = take-set_above i block i v (omega arith) ∙ at.front;
        here = get_elem?-set_self block i v (omega arith);
        back =
            drop-set_below (i + 1 + (offset + 2)) block i v (omega arith)
            ∙ sym (ap (λ k. drop k block) next)
            ∙ drop_more source (s ++ (0 ∷ slack)) 3 at.back refl;
        place = omega (arith, at.place);
      }

-- The state in which the text has been read.
pub record ReadsAll (security : Bool) (block out s slack : Bytes) (len i offset rounds : ℕ)
    : Type 0 where
  pub next : Bytes
  pub shift : ℕ
  pub left : ℕ
  pub run :
      strip_loop security len block i offset rounds
      ≡ strip_loop security len next (i + length (unescape security s)) shift left
  pub size : length next ≡ length block
  pub at :
      At next (out ++ unescape security s) [] slack len (i + length (unescape security s)) shift
  pub counted : i + length (unescape security s) + left ≡ len

read_empty :
    (security : Bool) (block out slack : Bytes) (len i offset rounds : ℕ)
    → At block out [] slack len i offset
    → i + rounds ≡ len
    → ReadsAll security block out [] slack len i offset rounds
unfolding unescape
read_empty security block out slack len i offset rounds at h =
    let e : i ≡ i + 0 = omega arith in
    record {
      next = block;
      shift = offset;
      left = rounds;
      run = ap (λ j. strip_loop security len block j offset rounds) e;
      size = refl;
      at =
          subst (λ j. At block (out ++ []) [] slack len j offset) e
            (subst (λ l. At block l [] slack len i offset) (sym (append-nil out)) at);
      counted = omega (arith, h);
    }

-- One round, and the rest.
read_round :
    (security : Bool) (block out s t slack : Bytes) (len i offset shift x rounds : ℕ)
    → unescape security t ≡ x ∷ unescape security s
    → (r : Writes security block out s slack len i offset shift x)
    → ((next : Bytes)
        → At next (out ++ (x ∷ [])) s slack len (i + 1) shift
        → ReadsAll security next (out ++ (x ∷ [])) s slack len (i + 1) shift rounds)
    → ReadsAll security block out t slack len i offset (suc rounds)
read_round security block out s t slack len i offset shift x rounds u r rest =
    let (next, run, size, at) = round-At security block out s slack len i offset shift x rounds r in
    let more = rest next at in
    let n = length (unescape security s) in
    let count : i + 1 + n ≡ i + length (unescape security t) = omega (arith, ap length u) in
    record {
      next = more.next;
      shift = more.shift;
      left = more.left;
      run =
          run ∙ more.run ∙ ap (λ j. strip_loop security len more.next j more.shift more.left) count;
      size = more.size ∙ size;
      at =
          subst (λ j. At more.next (out ++ unescape security t) [] slack len j more.shift) count
            (subst (λ l. At more.next l [] slack len (i + 1 + n) more.shift)
              (append_assoc out (x ∷ []) (unescape security s) ∙ sym (ap (◌++◌ out) u)) more.at);
      counted = sym (ap (λ j. j + more.left) count) ∙ more.counted;
    }

module _ (security : Bool) (slack : Bytes) (len : ℕ) where
  pub strip_loop-unescape :
      (s block out : Bytes) (i offset rounds : ℕ)
      → At block out s slack len i offset
      → i + rounds ≡ len
      → ReadsAll security block out s slack len i offset rounds
  strip_loop-unescape [] block out i offset rounds at h =
      read_empty security block out slack len i offset rounds at h
  strip_loop-unescape (c ∷ s) block out i offset zero at h = absurd (omega (arith, at.place))
  strip_loop-unescape (c ∷ []) block out i offset (suc rounds) at h =
      read_round security block out [] (c ∷ []) slack len i offset offset c rounds
        (unfold unescape in refl)
        (plain_round security block out slack len i offset c [] at (ground (arith, at.place)))
        (λ next step.
          strip_loop-unescape [] next (out ++ (c ∷ [])) (i + 1) offset rounds step (omega arith))
  strip_loop-unescape (c ∷ a ∷ []) block out i offset (suc rounds) at h =
      read_round security block out (a ∷ []) (c ∷ a ∷ []) slack len i offset offset c rounds
        (unfold unescape in refl)
        (plain_round security block out slack len i offset c (a ∷ []) at (ground (arith, at.place)))
        (λ next step.
          strip_loop-unescape (a ∷ []) next (out ++ (c ∷ [])) (i + 1) offset rounds step
            (omega arith))
  strip_loop-unescape (c ∷ a ∷ b ∷ s) block out i offset (suc rounds) at h =
      elim (Bool-cases (c == b'%')) [
        | inl e ↦ elim (Option-cases (escaped security a b)) [
          | inl f ↦
              read_round security block out (a ∷ b ∷ s) (c ∷ a ∷ b ∷ s) slack len i offset offset
                b'_' rounds (unescape_refused security c a b s e f)
                (refused_round security block out slack len i offset c a b s e at f)
                (λ next step.
                  strip_loop-unescape (a ∷ b ∷ s) next (out ++ (b'_' ∷ [])) (i + 1) offset rounds
                    step (omega arith))
          | inr (v, f) ↦
              read_round security block out s (c ∷ a ∷ b ∷ s) slack len i offset (offset + 2) v
                rounds (unescape_escape security c a b s v e f)
                (escape_round security block out slack len i offset c a b v s e at f)
                (λ next step.
                  strip_loop-unescape s next (out ++ (v ∷ [])) (i + 1) (offset + 2) rounds step
                    (omega arith))
        ]
        | inr e ↦
            read_round security block out (a ∷ b ∷ s) (c ∷ a ∷ b ∷ s) slack len i offset offset c
              rounds (unescape_plain security c a b s e)
              (plain_round security block out slack len i offset c (a ∷ b ∷ s) at (rw e))
              (λ next step.
                strip_loop-unescape (a ∷ b ∷ s) next (out ++ (c ∷ [])) (i + 1) offset rounds step
                  (omega arith))
      ]
