-- ===== src/Tui/Cache.antt =====
-- The cache of wrapped chat lines: `chat_lines_for_width` between changes of the scrollback.
use perry_hermes.Prelude.{
  ℕ, ◌+◌, ◌^◌, ◌<◌, ◌≤◌, ◌≡◌, refl, sym, ap, ◌∙◌, ◌⊎◌, inl, inr, Bool, true, false, ◌&&◌, Option,
  none, some, List, [], ◌∷◌, arith, length, ◌==◌, Bool-cases,
}
use perry_hermes.Tui.App.{
  App, RenderedLine, default, push_line, clear_scrollback, is_cached, chat_lines_for_width,
}

-- What the interface does with the scrollback.
pub data Use : Type 0 where
  push : RenderedLine → Use
  clear : Use
  draw : ℕ → Use

module _ {Line : Type 0} (build_chat_lines : List RenderedLine → ℕ → List Line) where
  -- The cache is empty, older than the scrollback, or what its width makes of the scrollback.
  pub record IsCoherent (changes : ℕ) (a : App Line) : Type 0 where
    pub revision : a.scrollback_revision ≤ changes
    pub order : a.cached_chat_revision ≤ a.scrollback_revision
    pub lines :
        ((a.cached_chat_width ≡ none) ⊎ (a.cached_chat_revision < a.scrollback_revision))
        ⊎ ((w : ℕ) × (a.cached_chat_width ≡ some w)
            × (a.cached_chat_lines ≡ build_chat_lines a.scrollback w))

  abbrev pub use_once : Use → App Line → App Line
  use_once (push line) a = push_line line a
  use_once clear a = clear_scrollback a
  use_once (draw width) a = (chat_lines_for_width build_chat_lines width a).1

  abbrev pub use_all : List Use → App Line → App Line
  use_all [] a = a
  use_all (u ∷ us) a = use_all us (use_once u a)

  default-IsCoherent : IsCoherent 0 default
  default-IsCoherent = record {
    revision = omega arith;
    order = omega arith;
    lines = inl (inl refl);
  }

  push_line-IsCoherent :
      (n : ℕ) (line : RenderedLine) (a : App Line)
      → n + 1 < 2 ^ 64
      → IsCoherent n a
      → IsCoherent (n + 1) (push_line line a)
  unfolding push_line
  push_line-IsCoherent n line a small h = record {
    revision = omega (arith, h.revision);
    order = omega (arith, h.order, h.revision);
    lines = inl (inr (omega (arith, h.order, h.revision)));
  }

  clear_scrollback-IsCoherent :
      (n : ℕ) (a : App Line)
      → n + 1 < 2 ^ 64
      → IsCoherent n a
      → IsCoherent (n + 1) (clear_scrollback a)
  unfolding clear_scrollback
  clear_scrollback-IsCoherent n a small h = record {
    revision = omega (arith, h.revision);
    order = omega (arith, h.order, h.revision);
    lines = inl (inr (omega (arith, h.order, h.revision)));
  }

  -- A cached width and revision mean that the cached lines are current.
  is_cached-lines :
      (n width : ℕ) (a : App Line)
      → IsCoherent n a
      → is_cached build_chat_lines width a ≡ true
      → a.cached_chat_lines ≡ build_chat_lines a.scrollback width
  unfolding is_cached
  is_cached-lines n width a h cached = go h.lines a.cached_chat_width refl cached
    where
      go :
          (((a.cached_chat_width ≡ none) ⊎ (a.cached_chat_revision < a.scrollback_revision))
            ⊎ ((w : ℕ) × (a.cached_chat_width ≡ some w)
                × (a.cached_chat_lines ≡ build_chat_lines a.scrollback w)))
          → (o : Option ℕ) → a.cached_chat_width ≡ o
          → (elim o as (λ x. Bool) [ none ↦ false | some w ↦ w == width ]
              && a.cached_chat_revision == a.scrollback_revision)
            ≡ true
          → a.cached_chat_lines ≡ build_chat_lines a.scrollback width
      go c none e k = absurd (cc)
      go (inl (inl x)) (some v) e k = absurd (cc)
      go (inl (inr x)) (some v) e k = absurd (ground arith)
      go (inr (w, x, l)) (some v) e k =
          let same : some w ≡ some v = sym x ∙ e in
          let wv : w ≡ v = cc in
          let vw : v ≡ width = ground arith in l ∙ ap (build_chat_lines a.scrollback) (wv ∙ vw)

  pub draw-lines :
      (n width : ℕ) (a : App Line)
      → IsCoherent n a
      → (chat_lines_for_width build_chat_lines width a).0 ≡ build_chat_lines a.scrollback width
  unfolding chat_lines_for_width
  draw-lines n width a h = elim (Bool-cases (is_cached build_chat_lines width a)) [
    | inl k ↦ rw (k, chat_lines_for_width) (is_cached-lines n width a h k)
    | inr k ↦ rw (k, chat_lines_for_width) refl
  ]

  draw-IsCoherent :
      (n width : ℕ) (a : App Line)
      → IsCoherent n a
      → IsCoherent (n + 1) (chat_lines_for_width build_chat_lines width a).1
  unfolding chat_lines_for_width
  draw-IsCoherent n width a h = elim (Bool-cases (is_cached build_chat_lines width a)) [
    | inl k ↦
        rw (k, chat_lines_for_width)
          (record { revision = omega (arith, h.revision); order = h.order; lines = h.lines })
    | inr k ↦
        rw (k, chat_lines_for_width)
          (record {
            revision = omega (arith, h.revision);
            order = omega arith;
            lines = inr (width, refl, refl);
          })
  ]

  use_once-IsCoherent :
      (n : ℕ) (u : Use) (a : App Line)
      → n + 1 < 2 ^ 64
      → IsCoherent n a
      → IsCoherent (n + 1) (use_once u a)
  use_once-IsCoherent n (push line) a small h = push_line-IsCoherent n line a small h
  use_once-IsCoherent n clear a small h = clear_scrollback-IsCoherent n a small h
  use_once-IsCoherent n (draw width) a small h = draw-IsCoherent n width a h

  use_all-IsCoherent :
      (n m : ℕ) (us : List Use) (a : App Line)
      → m ≡ n + length us
      → m < 2 ^ 64
      → IsCoherent n a
      → IsCoherent m (use_all us a)
  use_all-IsCoherent n m [] a e small h = record {
    revision = omega (arith, h.revision);
    order = h.order;
    lines = h.lines;
  }
  use_all-IsCoherent n m (u ∷ us) a e small h =
      use_all-IsCoherent (n + 1) m us (use_once u a) (omega arith) small
        (use_once-IsCoherent n u a (omega arith) h)

  -- After fewer than 2^64 pushes, clears and draws of a new interface, a draw at any width shows
  -- the wrapping of the scrollback as it is, never stale lines.
  pub chat_lines_for_width-use_all :
      (us : List Use) (width : ℕ)
      → length us < 2 ^ 64
      → (chat_lines_for_width build_chat_lines width (use_all us default)).0
        ≡ build_chat_lines (use_all us default).scrollback width
  chat_lines_for_width-use_all us width small =
      draw-lines (length us) width (use_all us default)
        (use_all-IsCoherent 0 (length us) us default (omega arith) small default-IsCoherent)
