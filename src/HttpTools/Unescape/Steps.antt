-- ===== src/HttpTools/Unescape/Steps.antt =====
-- One round of the loop of `StripHTMLCharacters_Inplace`, src/AmmServerlib/tools/http_tools.c.
use ammar_server.Base.{
  ℕ, zero, suc, ◌+◌, ◌-◌, ◌≡◌, refl, sym, ap, ◌∙◌, Bool, [], ◌∷◌, ◌++◌, some, arith, Bytes, length,
  get_elem?, set, take, drop, length-set, length-append, length-drop, get_elem?-set_self,
  take-set_above, drop-set_below, take-suc, get_elem?-drop,
}
use ammar_server.HttpTools.Unescape.{replace_escape, copy_down, strip_loop}

abbrev pub first : Bytes → ℕ
first [] = 0
first (c ∷ s) = c

-- Before a round: what is written, and what is still to be read, the character at `i` included.
pub record At (block out s slack : Bytes) (len i offset : ℕ) : Type 0 where
  pub front : take i block ≡ out
  pub back : drop (i + offset) block ≡ s ++ (0 ∷ slack)
  pub here : get_elem? block i ≡ some (first s)
  pub place : i + offset + length s ≡ len

pub first_read :
    (block s slack : Bytes) (n : ℕ)
    → drop n block ≡ s ++ (0 ∷ slack)
    → get_elem? block n ≡ some (first s)
first_read block s slack n h =
    let e : n + 0 ≡ n = omega arith in
    sym (ap (get_elem? block) e)
    ∙ sym (get_elem?-drop n block 0)
    ∙ ap (λ l. get_elem? l 0) h
    ∙ first_lem s
  where
    first_lem : (s : Bytes) → get_elem? (s ++ (0 ∷ slack)) 0 ≡ some (first s)
    first_lem [] = refl
    first_lem (c ∷ s) = refl

pub inside :
    (block s slack : Bytes) (n : ℕ)
    → drop n block ≡ s ++ (0 ∷ slack)
    → n + length s + 1 + length slack ≡ length block
inside block s slack n h =
    let size : length block - n ≡ length s + suc (length slack) =
      sym (length-drop n block) ∙ ap length h ∙ length-append s (0 ∷ slack) in
    omega arith

-- What has been written, with the byte at `i`.
pub front_suc :
    (block out : Bytes) (i x : ℕ)
    → take i block ≡ out
    → get_elem? block i ≡ some x
    → take (i + 1) block ≡ out ++ (x ∷ [])
front_suc block out i x f h =
    let e : i + 1 ≡ suc i = omega arith in
    ap (λ k. take k block) e ∙ take-suc i block x h ∙ ap (λ l. l ++ (x ∷ [])) f

-- A byte `x` has been written at `i`, and the next one is copied.
pub copy_down-At :
    (block out s slack : Bytes) (len i offset x : ℕ)
    → take i block ≡ out
    → get_elem? block i ≡ some x
    → drop (i + 1 + offset) block ≡ s ++ (0 ∷ slack)
    → i + 1 + offset + length s ≡ len
    → (next : Bytes) × (copy_down block (i + 1) offset ≡ some next)
      × (length next ≡ length block)
      × At next (out ++ (x ∷ [])) s slack len (i + 1) offset
unfolding copy_down
copy_down-At block out s slack len i zero x f h b p =
    let e : i + 1 + 0 ≡ i + 1 = omega arith in
    (
      block,
      refl,
      refl,
      record {
        front = front_suc block out i x f h;
        back = b;
        here = first_read block s slack (i + 1) (sym (ap (λ k. drop k block) e) ∙ b);
        place = p;
      },
    )
copy_down-At block out s slack len i (suc o) x f h b p =
    let v = first s in
    let size = inside block s slack (i + 1 + suc o) b in
    (
      set block (i + 1) v,
      rw (first_read block s slack (i + 1 + suc o) b),
      length-set block (i + 1) v,
      record {
        front = take-set_above (i + 1) block (i + 1) v (omega arith) ∙ front_suc block out i x f h;
        back = drop-set_below (i + 1 + suc o) block (i + 1) v (omega arith) ∙ b;
        here = get_elem?-set_self block (i + 1) v (omega arith);
        place = p;
      },
    )

-- A round in which the byte `x` is written and `more` of the source is passed over.
pub record Writes (security : Bool) (block out s slack : Bytes) (len i offset shift x : ℕ)
    : Type 0 where
  pub replaced : Bytes
  pub run : replace_escape security len block i offset ≡ some (replaced, shift)
  pub size : length replaced ≡ length block
  pub front : take i replaced ≡ out
  pub here : get_elem? replaced i ≡ some x
  pub back : drop (i + 1 + shift) replaced ≡ s ++ (0 ∷ slack)
  pub place : i + 1 + shift + length s ≡ len

pub round-At :
    (security : Bool) (block out s slack : Bytes) (len i offset shift x rounds : ℕ)
    → Writes security block out s slack len i offset shift x
    → (next : Bytes) × (strip_loop security len block i offset (suc rounds)
        ≡ strip_loop security len next (i + 1) shift rounds)
      × (length next ≡ length block)
      × At next (out ++ (x ∷ [])) s slack len (i + 1) shift
unfolding strip_loop
round-At security block out s slack len i offset shift x rounds r =
    let (next, copied, size, at) =
      copy_down-At r.replaced out s slack len i shift x r.front r.here r.back r.place in
    (next, rw (r.run, copied), size ∙ r.size, at)
