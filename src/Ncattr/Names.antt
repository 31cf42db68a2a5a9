-- ===== src/Ncattr/Names.antt =====
-- The names of the command on attributes (api/lib/ncattrUtil.cpp).
use irods_netcdf.Base.{ℕ, zero, suc, ◌≡◌, refl, ap, true, ◌||◌, ◌&&◌, Option, some, List, ◌∷◌, take}
use irods_netcdf.Ncattr.{AttrArgs, names_loop, names_of, init_cond_for_ncattr}
use irods_netcdf.Ncattr.Pages.{TextElements, done, more}

names_loop-take :
    {next_ele : List ℕ → Option (List ℕ × List ℕ)} {es : List (List ℕ)} {text : List ℕ} (size : ℕ)
    → TextElements next_ele text es
    → names_loop next_ele size text ≡ take size es
unfolding names_loop
names_loop-take zero h = refl
names_loop-take (suc size) (done e) = rw (e, names_loop) refl
names_loop-take (suc size) (more {e = x} e h) =
    rw (e, names_loop) (ap (◌∷◌ x) (names_loop-take size h))

-- With --attr, a registration or a removal is for the names that the text holds, in order, up to MAX_NAME_LEN
-- of them, so that no name is written past the array.
pub init_cond_for_ncattr-take :
    (next_ele : List ℕ → Option (List ℕ × List ℕ)) (max_name_len : ℕ) (args : AttrArgs)
    (text : List ℕ) (es : List (List ℕ))
    → TextElements next_ele text es
    → ((args.reg || args.remove) && args.attr) ≡ true
    → args.attr_str ≡ some text
    → (init_cond_for_ncattr next_ele max_name_len (some args)).attr_name_array
      ≡ some (take max_name_len es)
unfolding init_cond_for_ncattr names_of
init_cond_for_ncattr-take next_ele max_name_len args text es h asked given =
    rw (asked, given) (ap some (names_loop-take max_name_len h))
