-- ===== src/AString/Nested.antt =====
-- Replacements by a value that begins with the variable, src/AmmServerlib/AString/AString.c.
use mathlib.Core.List.{append_assoc}
use mathlib.Core.Path.{subst}
use ammar_server.Base.{
  ℕ, zero, suc, ◌+◌, ◌*◌, ◌<◌, ◌≡◌, refl, sym, ap, ◌∙◌, true, [], ◌∷◌, ◌++◌, some, arith, Bytes,
  length, drop, uint, take-append_eq, drop-append_eq, ◌==◌,
}
use ammar_server.AString.Memory.{starts}
use ammar_server.AString.Search.{IsText, starts-prefix, first_place}
use ammar_server.AString.Inject.{Holds}
use ammar_server.AString.Replace.{Becomes, replaced}
use ammar_server.AString.Instances.{
  replace_text, replace_text-some, replace_all_instances-replace_text,
}
use ammar_server.AString.{MemoryHandler, replace_all_instances}

pub copies : ℕ → Bytes → Bytes
copies zero s = []
copies (suc n) s = copies n s ++ s

copies_behind : (n : ℕ) (s post : Bytes) → copies n s ++ (s ++ post) ≡ copies (suc n) s ++ post
unfolding copies
copies_behind n s post = sym (append_assoc (copies n s) s post)

first_place_zero : (needle s : Bytes) → starts needle s ≡ true → first_place needle s ≡ some 0
unfolding first_place
first_place_zero needle [] h = rw h
first_place_zero needle (c ∷ s) h = rw h

module _ (var suffix pre : Bytes) where
  replaced_pieces :
      (post : Bytes)
      → replaced var (var ++ suffix) (length pre + 0) (pre ++ (var ++ post))
        ≡ pre ++ (var ++ (suffix ++ post))
  unfolding replaced
  replaced_pieces post =
      let e : length pre + 0 ≡ length pre = omega arith in
      rw
        (
          e,
          take-append_eq (length pre) pre (var ++ post) refl,
          drop-append_eq (length pre) pre (var ++ post) refl,
          drop-append_eq (length var) var post refl,
        )
        (ap (◌++◌ pre) (append_assoc var suffix post))

  replace_text_nested :
      (n : ℕ) (post : Bytes)
      → replace_text var (var ++ suffix) (length pre) (pre ++ (var ++ post)) n
        ≡ (pre ++ (var ++ (copies n suffix ++ post)), 0)
  replace_text_nested zero post = unfold replace_text copies in refl
  replace_text_nested (suc n) post =
      let text = pre ++ (var ++ post) in
      let here : first_place var (drop (length pre) text) ≡ some 0 =
        ap (first_place var) (drop-append_eq (length pre) pre (var ++ post) refl)
        ∙ first_place_zero var (var ++ post) (starts-prefix var post) in
      let e : length pre + 0 ≡ length pre = omega arith in
      replace_text-some var (var ++ suffix) (length pre) text n 0 here
      ∙ ap (λ b. replace_text var (var ++ suffix) (length pre + 0) b n) (replaced_pieces post)
      ∙ ap (λ k. replace_text var (var ++ suffix) k (pre ++ (var ++ (suffix ++ post))) n) e
      ∙ replace_text_nested n (suffix ++ post)
      ∙ ap (λ b. (pre ++ (var ++ b), 0)) (copies_behind n suffix post)

  first_round :
      (n : ℕ) (post : Bytes)
      → first_place var (pre ++ (var ++ post)) ≡ some (length pre)
      → replace_text var (var ++ suffix) 0 (pre ++ (var ++ post)) (suc n)
        ≡ (pre ++ (var ++ (copies (suc n) suffix ++ post)), 0)
  first_round n post h =
      let text = pre ++ (var ++ post) in
      let e : 0 + length pre ≡ length pre + 0 = omega arith in
      let f : length pre + 0 ≡ length pre = omega arith in
      replace_text-some var (var ++ suffix) 0 text n (length pre) h
      ∙ ap (λ k. replace_text var (var ++ suffix) k (replaced var (var ++ suffix) k text) n) e
      ∙ ap (λ b. replace_text var (var ++ suffix) (length pre + 0) b n) (replaced_pieces post)
      ∙ ap (λ k. replace_text var (var ++ suffix) k (pre ++ (var ++ (suffix ++ post))) n) f
      ∙ replace_text_nested n (suffix ++ post)
      ∙ ap (λ b. (pre ++ (var ++ b), 0)) (copies_behind n suffix post)

  -- When the value begins with the variable, each round finds the variable again in the value that the
  -- round before has written: if every call of `realloc` succeeds and the sizes stay below 2 ^ 32, then
  -- the replacement of a number of instances that is not 0 returns 1 and the handler holds the text with
  -- the rest of the value that many times behind the first variable, and nothing else of the text has
  -- changed, whatever variables stand behind it.
  pub replace_all_instances_nested :
      (fills : ℕ → ℕ → ℕ) (mh : MemoryHandler) (n : ℕ) (post : Bytes)
      → IsText var
      → IsText (var ++ suffix)
      → Holds mh (pre ++ (var ++ post))
      → first_place var (pre ++ (var ++ post)) ≡ some (length pre)
      → length (pre ++ (var ++ post)) + suc n * length (var ++ suffix) + 1 < uint
      → Becomes
          (λ mh'.
            replace_all_instances (λ k. some (fills k)) mh (suc n) (some var) (some (var ++ suffix))
            ≡ some (mh', true))
          (pre ++ (var ++ (copies (suc n) suffix ++ post)))
  replace_all_instances_nested fills mh n post t clean h f small =
      let text = pre ++ (var ++ post) in
      let rounds = first_round n post f in
      let (mh', run, after) =
        replace_all_instances-replace_text fills var (var ++ suffix) t clean mh text n h small in
      (mh', run ∙ ap (λ r. some (mh', r.1 == 0)) rounds, subst (λ r. Holds mh' r.0) rounds after)
