-- ===== src/ScalarArray/Kleene.antt =====
-- What ANY and ALL mean: the disjunction and the conjunction of the results in the three-valued logic
-- of SQL, where none is NULL.
use pg_jitter.Prelude.{◌≡◌, refl, Bool, true, false, not, Option, none, some, List, [], ◌∷◌}

-- The value that decides: true for OR, false for AND.
abbrev pub kleene : Bool → Option Bool → Option Bool → Option Bool
kleene true (some true) b = some true
kleene true (some false) b = b
kleene true none (some true) = some true
kleene true none (some false) = none
kleene true none none = none
kleene false (some false) b = some false
kleene false (some true) b = b
kleene false none (some false) = some false
kleene false none (some true) = none
kleene false none none = none

unfoldable pub over_all : Bool → List (Option Bool) → Option Bool
over_all use_or [] = some (not use_or)
over_all use_or (r ∷ rs) = kleene use_or r (over_all use_or rs)

-- What has been seen so far when nothing has decided.
abbrev pub seen : Bool → Bool → Option Bool
seen use_or true = none
seen use_or false = some (not use_or)

pub seen-null :
    (use_or null : Bool) (b : Option Bool)
    → kleene use_or (seen use_or null) (kleene use_or none b) ≡ kleene use_or none b
seen-null true true none = refl
seen-null true true (some true) = refl
seen-null true true (some false) = refl
seen-null true false none = refl
seen-null true false (some true) = refl
seen-null true false (some false) = refl
seen-null false true none = refl
seen-null false true (some true) = refl
seen-null false true (some false) = refl
seen-null false false none = refl
seen-null false false (some true) = refl
seen-null false false (some false) = refl

pub seen-decided :
    (use_or null : Bool) (b : Option Bool)
    → kleene use_or (seen use_or null) (kleene use_or (some use_or) b) ≡ some use_or
seen-decided true true b = refl
seen-decided true false b = refl
seen-decided false true b = refl
seen-decided false false b = refl

pub seen-neutral : (use_or : Bool) (b : Option Bool) → kleene use_or (some (not use_or)) b ≡ b
seen-neutral true b = refl
seen-neutral false b = refl

pub seen-end :
    (use_or null : Bool) → kleene use_or (seen use_or null) (some (not use_or)) ≡ seen use_or null
seen-end true true = refl
seen-end true false = refl
seen-end false true = refl
seen-end false false = refl
