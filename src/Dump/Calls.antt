-- ===== src/Dump/Calls.antt =====
-- What the calls of a dump (api/lib/rcNcInq.cpp) leave of the output file.
use irods_netcdf.Base.{ℕ, ◌≡◌, Option, none, some, List, [], ◌∷◌}
use irods_netcdf.Status.{Result, ok, err, fault, ◌>>=◌, deref}
use irods_netcdf.Dump.{Call, nc_close, unlink, Run, and_run}

-- A call that neither closes nor removes the file.
abbrev pub IsWork : Call → Type 0
IsWork nc_close = ⊥
IsWork (unlink name) = ⊥
IsWork c = Unit {0}

abbrev pub AllWork : List Call → Type 0
AllWork [] = Unit {0}
AllWork (c ∷ calls) = IsWork c × AllWork calls

-- Closed once, as the last call; or closed once and then removed.
abbrev pub Closed : List Call → Type 0
Closed calls = (before : List Call) × (calls ≡ nc_close ∷ before) × AllWork before

abbrev pub Removed : List ℕ → List Call → Type 0
Removed name calls =
    (before : List Call) × (calls ≡ unlink name ∷ nc_close ∷ before) × AllWork before

-- On the way, the file is open where there is no error.
abbrev pub GoesOn : List ℕ → {A : Type 0} → Run A → Type 0
GoesOn name (ok a, calls) = AllWork calls
GoesOn name (err e, calls) = Removed name calls
GoesOn name (fault, calls) = Unit {0}

abbrev pub Finished : List ℕ → {A : Type 0} → Run A → Type 0
Finished name (ok a, calls) = Closed calls
Finished name (err e, calls) = Removed name calls
Finished name (fault, calls) = Unit {0}

module _ (name : List ℕ) {A B : Type 0} where
  pub and_run-GoesOn :
      (r : Run A) (next : A → List Call → Run B)
      → GoesOn name r
      → ((a : A) (calls : List Call) → AllWork calls → GoesOn name (next a calls))
      → GoesOn name (and_run r next)
  and_run-GoesOn (ok a, calls) next h k = k a calls h
  and_run-GoesOn (err e, calls) next h k = h
  and_run-GoesOn (fault, calls) next h k = tt

  pub and_run-Finished :
      (r : Run A) (next : A → List Call → Run B)
      → GoesOn name r
      → ((a : A) (calls : List Call) → AllWork calls → Finished name (next a calls))
      → Finished name (and_run r next)
  and_run-Finished (ok a, calls) next h k = k a calls h
  and_run-Finished (err e, calls) next h k = h
  and_run-Finished (fault, calls) next h k = tt

-- A calculation that makes no call, with an index out of an array as a fault.
abbrev pub NoErr : {A : Type 0} → Result A → Type 0
NoErr (ok a) = Unit {0}
NoErr (err e) = ⊥
NoErr fault = Unit {0}

pub NoErr-GoesOn :
    (name : List ℕ) {A : Type 0} (r : Result A) (calls : List Call)
    → NoErr r
    → AllWork calls
    → GoesOn name (r, calls)
NoErr-GoesOn name (ok a) calls n h = h
NoErr-GoesOn name (err e) calls n h = absurd n
NoErr-GoesOn name fault calls n h = tt

pub bind-NoErr :
    {A B : Type 0} (r : Result A) (next : A → Result B)
    → NoErr r
    → ((a : A) → NoErr (next a))
    → NoErr (r >>= next)
bind-NoErr (ok a) next n h = h a
bind-NoErr (err e) next n h = n
bind-NoErr fault next n h = tt

pub deref-NoErr : {A : Type 0} (o : Option A) → NoErr (deref o)
deref-NoErr none = tt
deref-NoErr (some a) = tt
