-- ===== src/Adaptive/Profile.antt =====
-- `meta_build_profile`: the shape of an expression, counted over its steps.
use pg_jitter.Prelude.{
  ℕ, ◌+◌, ◌%◌, ◌<◌, ◌≡◌, arith, Bool, List, [], ◌∷◌, length, ltb, if◌then◌else◌,
}
use pg_jitter.Adaptive.Table.{ExprProfile}

-- The opcodes that the profile tells apart, and `last_var` of a fetch step, as a non-negative int.
pub data Step : Type 0 where
  fetchsome : ℕ → Step
  hashdatum funcexpr qual agg_trans other_step : Step

-- The counters have 8 bits and the attributes 16.
unfoldable pub count_step : Bool → ExprProfile → Step → ExprProfile
count_step have_hashdatum p (fetchsome last_var) = record {
  nsteps = p.nsteps;
  fetchsome_natts = (p.fetchsome_natts + last_var) % 65536;
  n_hashdatum = p.n_hashdatum;
  n_funcexpr = p.n_funcexpr;
  n_qual = p.n_qual;
  n_agg = p.n_agg;
}
count_step have_hashdatum p hashdatum = record {
  nsteps = p.nsteps;
  fetchsome_natts = p.fetchsome_natts;
  n_hashdatum = if have_hashdatum then (p.n_hashdatum + 1) % 256 else p.n_hashdatum;
  n_funcexpr = p.n_funcexpr;
  n_qual = p.n_qual;
  n_agg = p.n_agg;
}
count_step have_hashdatum p funcexpr = record {
  nsteps = p.nsteps;
  fetchsome_natts = p.fetchsome_natts;
  n_hashdatum = p.n_hashdatum;
  n_funcexpr = (p.n_funcexpr + 1) % 256;
  n_qual = p.n_qual;
  n_agg = p.n_agg;
}
count_step have_hashdatum p qual = record {
  nsteps = p.nsteps;
  fetchsome_natts = p.fetchsome_natts;
  n_hashdatum = p.n_hashdatum;
  n_funcexpr = p.n_funcexpr;
  n_qual = (p.n_qual + 1) % 256;
  n_agg = p.n_agg;
}
count_step have_hashdatum p agg_trans = record {
  nsteps = p.nsteps;
  fetchsome_natts = p.fetchsome_natts;
  n_hashdatum = p.n_hashdatum;
  n_funcexpr = p.n_funcexpr;
  n_qual = p.n_qual;
  n_agg = (p.n_agg + 1) % 256;
}
count_step have_hashdatum p other_step = p

unfoldable pub count_steps : Bool → ExprProfile → List Step → ExprProfile
count_steps have_hashdatum p [] = p
count_steps have_hashdatum p (s ∷ steps) =
    count_steps have_hashdatum (count_step have_hashdatum p s) steps

-- The profile after the memset, with the number of steps.
abbrev pub cleared_profile : ℕ → ExprProfile
cleared_profile nsteps = record {
  nsteps = if ltb nsteps 65535 then nsteps else 65535;
  fetchsome_natts = 0;
  n_hashdatum = 0;
  n_funcexpr = 0;
  n_qual = 0;
  n_agg = 0;
}

unfoldable pub meta_build_profile : Bool → List Step → ExprProfile
meta_build_profile have_hashdatum steps =
    count_steps have_hashdatum (cleared_profile (length steps)) steps

-- The number of QUAL steps.
pub count_qual : List Step → ℕ
count_qual [] = 0
count_qual (qual ∷ steps) = count_qual steps + 1
count_qual (fetchsome n ∷ steps) = count_qual steps
count_qual (hashdatum ∷ steps) = count_qual steps
count_qual (funcexpr ∷ steps) = count_qual steps
count_qual (agg_trans ∷ steps) = count_qual steps
count_qual (other_step ∷ steps) = count_qual steps

-- The sum of the attributes that the fetch steps read.
pub sum_natts : List Step → ℕ
sum_natts [] = 0
sum_natts (fetchsome n ∷ steps) = n + sum_natts steps
sum_natts (hashdatum ∷ steps) = sum_natts steps
sum_natts (qual ∷ steps) = sum_natts steps
sum_natts (funcexpr ∷ steps) = sum_natts steps
sum_natts (agg_trans ∷ steps) = sum_natts steps
sum_natts (other_step ∷ steps) = sum_natts steps

counted :
    (have : Bool) (steps : List Step) (p : ExprProfile)
    → p.n_qual < 256
    → p.fetchsome_natts < 65536
    → ((count_steps have p steps).n_qual ≡ (p.n_qual + count_qual steps) % 256)
      × ((count_steps have p steps).fetchsome_natts ≡ (p.fetchsome_natts + sum_natts steps) % 65536)
unfolding count_steps count_step count_qual sum_natts
counted have [] p h h' = (omega arith, omega arith)
counted have (fetchsome n ∷ steps) p h h' =
    let rest = counted have steps (count_step have p (fetchsome n)) h (omega arith) in
    (omega (arith, rest.0), omega (arith, rest.1))
counted have (qual ∷ steps) p h h' =
    let rest = counted have steps (count_step have p qual) (omega arith) h' in
    (omega (arith, rest.0), omega (arith, rest.1))
counted have (hashdatum ∷ steps) p h h' = counted have steps (count_step have p hashdatum) h h'
counted have (funcexpr ∷ steps) p h h' = counted have steps (count_step have p funcexpr) h h'
counted have (agg_trans ∷ steps) p h h' = counted have steps (count_step have p agg_trans) h h'
counted have (other_step ∷ steps) p h h' = counted have steps p h h'

-- A profile counts its QUAL steps modulo 2 ^ 8 and the attributes of its fetch steps modulo 2 ^ 16.
pub build_profile_counts :
    (have : Bool) (steps : List Step)
    → ((meta_build_profile have steps).n_qual ≡ count_qual steps % 256)
      × ((meta_build_profile have steps).fetchsome_natts ≡ sum_natts steps % 65536)
unfolding meta_build_profile
build_profile_counts have steps =
    let c = counted have steps (cleared_profile (length steps)) (omega arith) (omega arith) in
    (omega (arith, c.0), omega (arith, c.1))
