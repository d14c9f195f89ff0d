-- ===== src/Colorize/Parse/Total.antt =====
-- One specifier is parsed without recursion, and reads behind itself at most the next byte.
use yk_util.Base.{ℕ, [], ◌∷◌, ◌≡◌, refl, Option, none, some, if◌then◌else◌, ◌==◌}
use yk_util.Colorize.Bytes.{Bytes, codes, equal, after_prefix}
use yk_util.Colorize.Emphasis.{name_to_emphasis}
use yk_util.Colorize.Numbers.{from_chars}
use yk_util.Colorize.Parse.{
  Spec, deref, behind, expect, number, channel, parse_channels, parse_rgb, parse_color, set_fg,
  set_bg, parse_fg, parse_bg, is_some, parse_prefixed, parse_specifier,
}
use yk_util.Colorize.Result.{ColorizeError, ok, error}
use yk_util.Colorize.Result.Laws.{EndsOr, bind-EndsOr, if-EndsOr, option-EndsOr}

-- Only at the end of the text there is no byte behind the specifier.
module _ (U : Type 0) (beyond : Option ℕ) (u : beyond ≡ none → U) where
  number-EndsOr : (s : Bytes) → EndsOr U (number s)
  number-EndsOr s = option-EndsOr U (from_chars s) _ _ tt (λ r. tt)

  from_beyond : (o : Option ℕ) (s : Bytes) → (o ≡ none → U) → EndsOr U (deref o s)
  from_beyond o (c ∷ s) k = tt
  from_beyond (some c) [] k = tt
  from_beyond none [] k = k refl

  deref-EndsOr : (s : Bytes) → EndsOr U (deref beyond s)
  deref-EndsOr s = from_beyond beyond s u

  expect-EndsOr : (e : ColorizeError) (c : ℕ) (s : Bytes) → EndsOr U (expect beyond e c s)
  expect-EndsOr e c s =
      bind-EndsOr U (deref beyond s) (λ d. if d == c then ok (behind s) else error e)
        (deref-EndsOr s) (λ d h. if-EndsOr U (d == c) (ok (behind s)) (error e) tt tt)

  channel-EndsOr : (e : ColorizeError) (c : ℕ) (s : Bytes) → EndsOr U (channel beyond e c s)
  unfolding channel
  channel-EndsOr e c s =
      bind-EndsOr U _ _ (number-EndsOr s)
        (λ n h. bind-EndsOr U _ _ (expect-EndsOr e c n.1) (λ s' h'. tt))

  parse_channels-EndsOr : (s : Bytes) → EndsOr U (parse_channels beyond s)
  unfolding parse_channels
  parse_channels-EndsOr s = bind-EndsOr U _ _ (channel-EndsOr _ b',' s) (λ r hr.
      bind-EndsOr U _ _ (channel-EndsOr _ b',' r.1)
        (λ g hg. bind-EndsOr U _ _ (channel-EndsOr _ b')' g.1) (λ b hb. tt)))

  parse_rgb-EndsOr : (spec : Bytes) → EndsOr U (parse_rgb beyond spec)
  unfolding parse_rgb
  parse_rgb-EndsOr spec =
      option-EndsOr U (after_prefix (codes "rgb(") spec) _ _ tt
        (λ s. bind-EndsOr U _ _ (parse_channels-EndsOr s) (λ c h. tt))

  parse_color-EndsOr : (spec : Bytes) → EndsOr U (parse_color beyond spec)
  unfolding parse_color
  parse_color-EndsOr spec =
      bind-EndsOr U _ _ (parse_rgb-EndsOr spec) (λ o h. option-EndsOr U o _ _ tt (λ c. tt))

  set_fg-EndsOr : (s : Spec) (c : ℕ) → EndsOr U (set_fg s c)
  set_fg-EndsOr s c = if-EndsOr U (is_some (Spec.fg_color s)) _ _ tt tt

  set_bg-EndsOr : (s : Spec) (c : ℕ) → EndsOr U (set_bg s c)
  set_bg-EndsOr s c = if-EndsOr U (is_some (Spec.bg_color s)) _ _ tt tt

  parse_fg-EndsOr : (s : Spec) (spec : Bytes) → EndsOr U (parse_fg beyond s spec)
  parse_fg-EndsOr s spec = if-EndsOr U (equal spec (codes "reset")) _ _ tt (
      bind-EndsOr U _ _ (parse_color-EndsOr spec)
        (λ o h. option-EndsOr U o _ _ tt (λ c. set_fg-EndsOr s c)))

  parse_bg-EndsOr : (s : Spec) (spec : Bytes) → EndsOr U (parse_bg beyond s spec)
  parse_bg-EndsOr s spec = if-EndsOr U (equal spec (codes "reset")) _ _ tt (
      bind-EndsOr U _ _ (parse_color-EndsOr spec)
        (λ o h. option-EndsOr U o _ _ tt (λ c. set_bg-EndsOr s c)))

  parse_prefixed-EndsOr :
      (s : Spec) (specifier : Bytes) → EndsOr U (parse_prefixed beyond s specifier)
  parse_prefixed-EndsOr s specifier =
      option-EndsOr U (after_prefix (codes "fg:") specifier) _ _
        (option-EndsOr U (after_prefix (codes "bg:") specifier) _ _ tt (parse_bg-EndsOr s))
        (parse_fg-EndsOr s)

  pub parse_specifier-EndsOr :
      (s : Spec) (specifier : Bytes) → EndsOr U (parse_specifier beyond s specifier)
  unfolding parse_specifier
  parse_specifier-EndsOr s specifier = if-EndsOr U (equal specifier (codes "reset")) _ _ tt (
      bind-EndsOr U _ _ (parse_color-EndsOr specifier) (λ o h.
        option-EndsOr U o _ _
          (option-EndsOr U (name_to_emphasis specifier) _ _ (parse_prefixed-EndsOr s specifier)
            (λ e. tt))
          (set_fg-EndsOr s)))
