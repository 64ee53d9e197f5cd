-- ===== src/Buffer/Frames/Runs.antt =====
-- `Find_contiguous_range` (src/Buffer.cc) finds a run of contiguous frames just when there is one.
use mathlib.Core.List.{append_assoc, map-append}
use cachetest.Prelude.{
  ℕ, zero, suc, ◌+◌, ◌-◌, ◌≤◌, ◌≡◌, ◌≢◌, refl, sym, ap, subst, ◌∙◌, inl, inr, arith, Bool, true,
  false, List, [], ◌∷◌, ◌++◌, map, length, length-append, ◌==◌, ==_of_ne, eq_cases, u64, pred64,
  two64, ◌*◌, ◌/◌, ◌^◌, ◌<◌, done,
}
use native.Mathlib.Nat.{one-le-pow}
use cachetest.Buffer.Frames.Align.{round_to_alignment-power, round_to_alignment-le}
use cachetest.Buffer.{Buffer}
use cachetest.Buffer.Frames.{
  round_to_alignment, FrameMap, scan, required_pages, find_contiguous_range,
}

-- The frames follow each other, from the one after `last` on.
abbrev pub Follow : ℕ → FrameMap → Type 0
Follow last [] = Unit
Follow last ((pfn, vpn) ∷ es) = (pfn ≡ u64 (last + 1)) × Follow pfn es

-- `n` contiguous frames, at least one, with the pages `slabs`, among the entries `es`.
pub record Range (n : ℕ) (es : FrameMap) (slabs : List ℕ) : Type 0 where
  pub before : FrameMap
  pub first : ℕ × ℕ
  pub rest : FrameMap
  pub after : FrameMap
  pub entries : es ≡ before ++ (first ∷ (rest ++ after))
  pub follow : Follow first.0 rest
  pub count : suc (length rest) ≡ n
  pub pages : slabs ≡ first.1 ∷ map (λ e. e.1) rest

-- The last frame of a run.
abbrev last_frame : ℕ → FrameMap → ℕ
last_frame last [] = last
last_frame last ((pfn, vpn) ∷ es) = last_frame pfn es

Follow-concat :
    (last : ℕ) (es : FrameMap) (pfn vpn : ℕ)
    → Follow last es
    → pfn ≡ u64 (last_frame last es + 1)
    → Follow last (es ++ (pfn, vpn) ∷ [])
Follow-concat last [] pfn vpn f e = (e, tt)
Follow-concat last ((p, v) ∷ es) pfn vpn f e = (f.0, Follow-concat p es pfn vpn f.1 e)

last_frame-concat :
    (last : ℕ) (es : FrameMap) (pfn vpn : ℕ) → last_frame last (es ++ (pfn, vpn) ∷ []) ≡ pfn
last_frame-concat last [] pfn vpn = refl
last_frame-concat last ((p, v) ∷ es) pfn vpn = last_frame-concat p es pfn vpn

module _ (needed : ℕ) where
  scan-enough :
      (es : FrameMap) (last : ℕ) (slabs : List ℕ) → scan es needed 0 last slabs ≡ (slabs, true)
  unfolding scan
  scan-enough [] last slabs = refl
  scan-enough ((pfn, vpn) ∷ es) last slabs = refl

  scan-next :
      (pfn vpn : ℕ) (es : FrameMap) (required last : ℕ) (slabs : List ℕ)
      → pfn ≡ u64 (last + 1)
      → scan ((pfn, vpn) ∷ es) needed (suc required) last slabs
        ≡ scan es needed required pfn (slabs ++ vpn ∷ [])
  unfolding scan
  scan-next pfn vpn es required last slabs e =
      let some : (suc required == 0) ≡ false = ground arith in
      let less : suc required - 1 ≡ required = omega arith in
      let follows : (pfn == u64 (last + 1)) ≡ true = ground arith in rw (some, follows, less)

  scan-again :
      (pfn vpn : ℕ) (es : FrameMap) (required last : ℕ) (slabs : List ℕ)
      → pfn ≢ u64 (last + 1)
      → scan ((pfn, vpn) ∷ es) needed (suc required) last slabs
        ≡ scan es needed needed pfn (vpn ∷ [])
  unfolding scan
  scan-again pfn vpn es required last slabs ne =
      let some : (suc required == 0) ≡ false = ground arith in
      rw (some, ==_of_ne pfn (u64 (last + 1)) ne)

  -- Frames that follow are taken, until there are enough.
  scan-Follow :
      (run after : FrameMap) (required last : ℕ) (slabs : List ℕ)
      → Follow last run
      → required ≤ length run
      → (scan (run ++ after) needed required last slabs).1 ≡ true
  scan-Follow run after zero last slabs f h = ap (λ r. r.1) (scan-enough (run ++ after) last slabs)
  scan-Follow [] after (suc required) last slabs f h = absurd (omega arith)
  scan-Follow ((pfn, vpn) ∷ run) after (suc required) last slabs f h =
      ap (λ r. r.1) (scan-next pfn vpn (run ++ after) required last slabs f.0)
      ∙ scan-Follow run after required pfn (slabs ++ vpn ∷ []) f.1 (omega arith)

  -- A range among the entries is not missed.
  scan_complete :
      (before : FrameMap) (first : ℕ × ℕ) (rest after : FrameMap) (required last : ℕ)
      (slabs : List ℕ)
      → Follow first.0 rest
      → length rest ≡ needed
      → required ≤ needed
      → (scan (before ++ (first ∷ (rest ++ after))) needed required last slabs).1 ≡ true
  scan_complete before first rest after zero last slabs f count h =
      ap (λ r. r.1) (scan-enough _ last slabs)
  scan_complete [] (pfn, vpn) rest after (suc required) last slabs f count h =
      elim (eq_cases pfn (u64 (last + 1))) [
        | inl e ↦
            ap (λ r. r.1) (scan-next pfn vpn (rest ++ after) required last slabs e)
            ∙ scan-Follow rest after required pfn (slabs ++ vpn ∷ []) f (omega arith)
        | inr ne ↦
            ap (λ r. r.1) (scan-again pfn vpn (rest ++ after) required last slabs ne)
            ∙ scan-Follow rest after needed pfn (vpn ∷ []) f (omega arith)
      ]
  scan_complete ((pfn, vpn) ∷ before) first rest after (suc required) last slabs f count h =
      elim (eq_cases pfn (u64 (last + 1))) [
        | inl e ↦
            ap (λ r. r.1)
              (scan-next pfn vpn (before ++ (first ∷ (rest ++ after))) required last slabs e)
            ∙ scan_complete before first rest after required pfn (slabs ++ vpn ∷ []) f count
                (omega arith)
        | inr ne ↦
            ap (λ r. r.1)
              (scan-again pfn vpn (before ++ (first ∷ (rest ++ after))) required last slabs ne)
            ∙ scan_complete before first rest after needed pfn (vpn ∷ []) f count (omega arith)
      ]

  scan-short :
      (required last : ℕ) (slabs : List ℕ) → (scan [] needed (suc required) last slabs).1 ≢ true
  unfolding scan
  scan-short required last slabs e = ground arith

  -- What the loop takes for enough is a range. So far it has the run of `first` and `rest`.
  scan_sound :
      (all before : FrameMap) (first : ℕ × ℕ) (rest es : FrameMap) (required last : ℕ)
      (slabs : List ℕ)
      → all ≡ before ++ (first ∷ (rest ++ es))
      → Follow first.0 rest
      → last ≡ last_frame first.0 rest
      → slabs ≡ first.1 ∷ map (λ e. e.1) rest
      → length rest + required ≡ needed
      → (scan es needed required last slabs).1 ≡ true
      → Range (suc needed) all (scan es needed required last slabs).0
  scan_sound all before first rest es zero last slabs entries f end pages count ok = record {
    before = before;
    first = first;
    rest = rest;
    after = es;
    entries = entries;
    follow = f;
    count = omega arith;
    pages = ap (λ r. r.0) (scan-enough es last slabs) ∙ pages;
  }
  scan_sound all before first rest [] (suc required) last slabs entries f end pages count ok =
      absurd (scan-short required last slabs ok)
  scan_sound all before first rest ((pfn, vpn) ∷ es) (suc required) last slabs entries f end pages
        count ok =
      elim (eq_cases pfn (u64 (last + 1))) [
        | inl e ↦
            let step = scan-next pfn vpn es required last slabs e in
            subst (λ r. Range (suc needed) all r.0) (sym step)
              (scan_sound all before first (rest ++ (pfn, vpn) ∷ []) es required pfn
                (slabs ++ vpn ∷ [])
                (entries
                  ∙ ap (λ r. before ++ (first ∷ r)) (sym (append_assoc rest ((pfn, vpn) ∷ []) es)))
                (Follow-concat first.0 rest pfn vpn f (e ∙ ap (λ l. u64 (l + 1)) end))
                (sym (last_frame-concat first.0 rest pfn vpn))
                (ap (λ s. s ++ vpn ∷ []) pages
                  ∙ ap (λ s. first.1 ∷ s) (sym (map-append (λ e. e.1) rest ((pfn, vpn) ∷ []))))
                (omega (arith, length-append rest ((pfn, vpn) ∷ [])))
                (ap (λ r. r.1) (sym step) ∙ ok))
        | inr ne ↦
            let step = scan-again pfn vpn es required last slabs ne in
            subst (λ r. Range (suc needed) all r.0) (sym step)
              (scan_sound all (before ++ (first ∷ rest)) (pfn, vpn) [] es needed pfn (vpn ∷ [])
                (entries ∙ sym (append_assoc before (first ∷ rest) ((pfn, vpn) ∷ es))) tt refl refl
                (omega arith) (ap (λ r. r.1) (sym step) ∙ ok))
      ]

-- The first round starts a run, unless it finds frame 1.
scan-first :
    (n pfn vpn : ℕ) (es : FrameMap)
    → pfn ≢ 1
    → (scan ((pfn, vpn) ∷ es) n n 0 (vpn ∷ [])).1 ≡ true
    → Range (suc n) ((pfn, vpn) ∷ es) (scan ((pfn, vpn) ∷ es) n n 0 (vpn ∷ [])).0
scan-first zero pfn vpn es ne ok =
    subst (λ r. Range 1 ((pfn, vpn) ∷ es) r.0) (sym (scan-enough 0 ((pfn, vpn) ∷ es) 0 (vpn ∷ [])))
      (record {
        before = [];
        first = (pfn, vpn);
        rest = [];
        after = es;
        entries = refl;
        follow = tt;
        count = refl;
        pages = refl;
      })
scan-first (suc n) pfn vpn es ne ok =
    let step = scan-again (suc n) pfn vpn es n 0 (vpn ∷ []) (λ e. ne (omega arith)) in
    subst (λ r. Range (suc (suc n)) ((pfn, vpn) ∷ es) r.0) (sym step)
      (scan_sound (suc n) ((pfn, vpn) ∷ es) [] (pfn, vpn) [] es (suc n) pfn (vpn ∷ []) refl tt refl
        refl (omega arith) (ap (λ r. r.1) (sym step) ∙ ok))

found-Range :
    (b : Buffer) (pfn vpn : ℕ) (es : FrameMap)
    → b.buffer_slabs ≡ []
    → pfn ≢ 1
    → (b' : Buffer) × (ok : Bool) × (find_contiguous_range b ((pfn, vpn) ∷ es) ≡ done (b', ok))
      × (ok ≡ true → Range (suc (required_pages b)) ((pfn, vpn) ∷ es) b'.buffer_slabs)
      × ((slabs : List ℕ) → Range (suc (required_pages b)) ((pfn, vpn) ∷ es) slabs → ok ≡ true)
unfolding find_contiguous_range
found-Range b pfn vpn es none ne =
    let n = required_pages b in
    let found = scan ((pfn, vpn) ∷ es) n n 0 (b.buffer_slabs ++ vpn ∷ []) in
    (
      record b { buffer_slabs = found.0 },
      found.1,
      refl,
      subst
          (λ s.
            (scan ((pfn, vpn) ∷ es) n n 0 (s ++ vpn ∷ [])).1 ≡ true
            → Range (suc n) ((pfn, vpn) ∷ es) (scan ((pfn, vpn) ∷ es) n n 0 (s ++ vpn ∷ [])).0)
          (sym none) (scan-first n pfn vpn es ne),
      λ slabs r.
          ap (λ a. (scan a n n 0 (b.buffer_slabs ++ vpn ∷ [])).1) r.entries
          ∙ scan_complete n r.before r.first r.rest r.after n 0 (b.buffer_slabs ++ vpn ∷ [])
              r.follow (omega (arith, r.count)) (omega arith),
    )

-- The pages that are needed, the first one included: as many as cover the size of the buffer.
required_pages-cover :
    (b : Buffer) (k : ℕ)
    → b.logical_page_size ≡ 2 ^ k
    → k ≤ 63
    → 0 < b.buffer_size
    → b.buffer_size + 2 ^ k ≤ two64
    → (b.buffer_size ≤ suc (required_pages b) * 2 ^ k)
      × (suc (required_pages b) * 2 ^ k < b.buffer_size + 2 ^ k)
unfolding required_pages
required_pages-cover b k size h pos room =
    let (_, least, most) = round_to_alignment-le b.buffer_size k h room in
    let q = (b.buffer_size + (2 ^ k - 1)) / 2 ^ k in
    let value : round_to_alignment b.buffer_size (2 ^ k) ≡ q * 2 ^ k =
      round_to_alignment-power b.buffer_size k h room in
    let some_page : 0 < q = grind (arith, least, value, pos) in
    let pages : q * 2 ^ k / 2 ^ k ≡ q = grind (arith, one-le-pow k 2 (omega arith)) in
    let fits : q < two64 = grind (arith, most, value, room) in
    let whole : suc (pred64 q) ≡ q = omega (arith, some_page, fits) in
    rw (size, value, pages, whole) (omega (arith, least, value), omega (arith, most, value))

-- On frames of which the first is not frame 1, in a buffer that is not empty, has no slabs yet and
-- whose pages have a power of two for their size: the call returns. If it says that it has found a
-- range, the slabs are the pages of contiguous frames, the least number of pages that covers the
-- buffer; and it says so whenever there are that many contiguous frames.
pub find_contiguous_range-Range :
    (b : Buffer) (k pfn vpn : ℕ) (es : FrameMap)
    → b.logical_page_size ≡ 2 ^ k
    → k ≤ 63
    → 0 < b.buffer_size
    → b.buffer_size + 2 ^ k ≤ two64
    → b.buffer_slabs ≡ []
    → pfn ≢ 1
    → (needed : ℕ) × (b' : Buffer) × (ok : Bool) × (b.buffer_size ≤ needed * b.logical_page_size)
      × (needed * b.logical_page_size < b.buffer_size + b.logical_page_size)
      × (find_contiguous_range b ((pfn, vpn) ∷ es) ≡ done (b', ok))
      × (ok ≡ true → Range needed ((pfn, vpn) ∷ es) b'.buffer_slabs)
      × ((slabs : List ℕ) → Range needed ((pfn, vpn) ∷ es) slabs → ok ≡ true)
find_contiguous_range-Range b k pfn vpn es size h pos room none ne =
    let (b', ok, runs, sound, complete) = found-Range b pfn vpn es none ne in
    let (least, most) = required_pages-cover b k size h pos room in
    (
      suc (required_pages b),
      b',
      ok,
      subst (λ s. b.buffer_size ≤ suc (required_pages b) * s) (sym size) least,
      subst (λ s. suc (required_pages b) * s < b.buffer_size + s) (sym size) most,
      runs,
      sound,
      complete,
    )
