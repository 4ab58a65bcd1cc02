-- ===== src/Pcre2/Regex/Stripped.antt =====
-- The strip of `%` from both ends turns a match of the whole text into a search.
use mathlib.Core.List.{append-nil, append_assoc}
use pg_jitter.Prelude.{◌≡◌, ◌↔◌, ◌∙◌, sym, ap, refl, Bool, true, List, [], ◌∷◌, ◌++◌}
use pg_jitter.Like.Pattern.{
  Bytes, Token, literal, percent_token, underscore_token, Matches, empty, byte, any_byte,
  Matches-percent, percent-Matches,
}
use pg_jitter.Pcre2.Regex.Defs.{strip_front, keep_token, strip_back}

-- The text begins or ends with the match where that end is anchored.
abbrev pub Behind : Bool × List Token → Bytes → Type 0
Behind r s =
    (before : Bytes) × (rest : Bytes) × (s ≡ before ++ rest)
    × (r.0 ≡ true → before ≡ [])
    × Matches r.1 rest

abbrev pub Before : Bool × List Token → Bytes → Type 0
Before r s =
    (mid : Bytes) × (after : Bytes) × (s ≡ mid ++ after)
    × (r.0 ≡ true → after ≡ [])
    × Matches r.1 mid

strip_front-Behind : (ts : List Token) (s : Bytes) → Matches ts s → Behind (strip_front ts) s
unfolding strip_front
strip_front-Behind [] s m = ([], s, refl, λ e. refl, m)
strip_front-Behind (percent_token ∷ ts) s m =
    let (a, b, e, m') = Matches-percent ts s m in
    let (before, rest, e', anchored, m'') = strip_front-Behind ts b m' in
    (
      a ++ before,
      rest,
      e ∙ ap (λ (t : Bytes). a ++ t) e' ∙ sym (append_assoc a before rest),
      λ f. cc,
      m'',
    )
strip_front-Behind (literal c ∷ ts) s m = ([], s, refl, λ e. refl, m)
strip_front-Behind (underscore_token ∷ ts) s m = ([], s, refl, λ e. refl, m)

unstripped : (before rest s : Bytes) → s ≡ before ++ rest → before ≡ [] → rest ≡ s
unstripped before rest s e z = cc

Behind-strip_front : (ts : List Token) (s : Bytes) → Behind (strip_front ts) s → Matches ts s
unfolding strip_front
Behind-strip_front [] s (before, rest, e, anchored, m) =
    rw (unstripped before rest s e (anchored refl)) at m
Behind-strip_front (percent_token ∷ ts) s (before, rest, e, anchored, m) =
    rw e
      (percent-Matches ts before rest (Behind-strip_front ts rest ([], rest, refl, λ f. refl, m)))
Behind-strip_front (literal c ∷ ts) s (before, rest, e, anchored, m) =
    rw (unstripped before rest s e (anchored refl)) at m
Behind-strip_front (underscore_token ∷ ts) s (before, rest, e, anchored, m) =
    rw (unstripped before rest s e (anchored refl)) at m

-- One token in front of what is left.
keep_token-Before :
    (t : Token) (ts : List Token) (r : Bool × List Token) (s : Bytes)
    → ((s' : Bytes) → Matches ts s' → Before r s')
    → Matches (t ∷ ts) s
    → Before (keep_token t r) s
keep_token-Before (literal c) ts r [] ih m = elim m [ ]
keep_token-Before underscore_token ts r [] ih m = elim m [ ]
keep_token-Before (literal c) ts r (_ ∷ s) ih (byte m) =
    let (mid, after, e, anchored, m') = ih s m in
    (c ∷ mid, after, ap (λ (t : Bytes). c ∷ t) e, anchored, byte m')
keep_token-Before underscore_token ts r (c ∷ s) ih (any_byte m) =
    let (mid, after, e, anchored, m') = ih s m in
    (c ∷ mid, after, ap (λ (t : Bytes). c ∷ t) e, anchored, any_byte m')
keep_token-Before percent_token ts (anch, []) s ih m = ([], s, refl, λ f. cc, empty)
keep_token-Before percent_token ts (anch, u ∷ us) s ih m =
    let (a, b, e, m') = Matches-percent ts s m in
    let (mid, after, e', anchored, m'') = ih b m' in
    (
      a ++ mid,
      after,
      e ∙ ap (λ (t : Bytes). a ++ t) e' ∙ sym (append_assoc a mid after),
      anchored,
      percent-Matches (u ∷ us) a mid m'',
    )

Before-keep_token :
    (t : Token) (ts : List Token) (r : Bool × List Token) (s : Bytes)
    → ((s' : Bytes) → Before r s' → Matches ts s')
    → Before (keep_token t r) s
    → Matches (t ∷ ts) s
Before-keep_token (literal c) ts r s ih ([], after, e, anchored, m) = elim m [ ]
Before-keep_token underscore_token ts r s ih ([], after, e, anchored, m) = elim m [ ]
Before-keep_token (literal c) ts r s ih (_ ∷ mid, after, e, anchored, byte m) =
    rw e (byte (ih (mid ++ after) (mid, after, refl, anchored, m)))
Before-keep_token underscore_token ts r s ih (c ∷ mid, after, e, anchored, any_byte m) =
    rw e (any_byte (ih (mid ++ after) (mid, after, refl, anchored, m)))
Before-keep_token percent_token ts (anch, []) s ih (mid, after, e, anchored, m) =
    rw (← append-nil s) (percent-Matches ts s [] (ih [] ([], [], refl, λ f. refl, empty)))
Before-keep_token percent_token ts (anch, u ∷ us) s ih (mid, after, e, anchored, m) =
    let (a, b, e', m') = Matches-percent (u ∷ us) mid m in
    let whole : s ≡ a ++ (b ++ after) =
      e ∙ ap (λ (t : Bytes). t ++ after) e' ∙ append_assoc a b after in
    rw whole (percent-Matches ts a (b ++ after) (ih (b ++ after) (b, after, refl, anchored, m')))

strip_back-Before : (ts : List Token) (s : Bytes) → Matches ts s → Before (strip_back ts) s
unfolding strip_back
strip_back-Before [] s m = (s, [], sym (append-nil s), λ f. refl, m)
strip_back-Before (t ∷ ts) s m =
    keep_token-Before t ts (strip_back ts) s (λ s' m'. strip_back-Before ts s' m') m

Before-strip_back : (ts : List Token) (s : Bytes) → Before (strip_back ts) s → Matches ts s
unfolding strip_back
Before-strip_back [] s (mid, after, e, anchored, m) =
    let whole : mid ≡ s =
      sym (append-nil mid) ∙ ap (λ (t : Bytes). mid ++ t) (sym (anchored refl)) ∙ sym e in
    rw whole at m
Before-strip_back (t ∷ ts) s b =
    Before-keep_token t ts (strip_back ts) s (λ s' b'. Before-strip_back ts s' b') b

pub front_iff : (ts : List Token) (s : Bytes) → Matches ts s ↔ Behind (strip_front ts) s
front_iff ts s = (strip_front-Behind ts s, Behind-strip_front ts s)

pub back_iff : (ts : List Token) (s : Bytes) → Matches ts s ↔ Before (strip_back ts) s
back_iff ts s = (strip_back-Before ts s, Before-strip_back ts s)
