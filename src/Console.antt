-- ===== src/Console.antt =====
-- The macros of libpcapcapture/util.h that print to the standard error: afs_assert, LOG_MSG, LOG_WARN,
-- LOG_ERR and LOG_DEBUG. Their arguments are taken at the text that they print.
use ip_ndn_stack_cpp.Prelude.{
  ℕ, ◌++◌, ◌≡◌, refl, ap, ◌∙◌, List, [], ◌∷◌, Bool, true, false, if◌then◌else◌,
}
use ip_ndn_stack_cpp.Text.{Bytes, codes, to_string}

-- The standard error so far; the process goes on, or has ended with a failure.
pub data Console : Type 0 where
  goes_on : Bytes → Console
  failed : Bytes → Console

abbrev pub printed : Console → Bytes
printed (goes_on s) = s
printed (failed s) = s

-- A process that has ended does nothing more.
abbrev pub then_do : (Bytes → Console) → Console → Console
then_do f (goes_on s) = f s
then_do f (failed s) = failed s

unfoldable pub log_msg : Bytes → Console → Console
log_msg text = then_do (λ s. goes_on (s ++ text))

unfoldable pub log_warn : Bytes → Console → Console
log_warn text = then_do (λ s. goes_on (s ++ (codes "[WARN]" ++ text)))

unfoldable pub log_err : Bytes → Console → Console
log_err text = then_do (λ s. failed (s ++ (codes "[ERROR]" ++ text)))

-- `debug` says whether DEBUG is defined.
unfoldable pub log_debug : Bool → Bytes → Console → Console
log_debug debug text c =
    if debug then then_do (λ s. goes_on (s ++ (codes "[DEBUG]" ++ text))) c else c

-- The condition's value and its text, and where it stands.
unfoldable pub afs_assert : Bool → Bytes → Bytes → ℕ → Bytes → Console → Console
afs_assert holds condition file line text =
    if holds
    then then_do goes_on
    else then_do λ s. failed (
        s
        ++ (codes "Assertion failed at "
            ++ condition
            ++ codes " ("
            ++ file
            ++ codes ":"
            ++ to_string line
            ++ codes "): "
            ++ text))

-- One use of a macro.
pub data Use : Type 0 where
  message warning error : Bytes → Use
  debugging : Bool → Bytes → Use
  assertion : Bool → Bytes → Bytes → ℕ → Bytes → Use

unfoldable pub perform : Use → Console → Console
unfolding log_msg log_warn log_err log_debug afs_assert
perform (message text) = log_msg text
perform (warning text) = log_warn text
perform (error text) = log_err text
perform (debugging debug text) = log_debug debug text
perform (assertion holds condition file line text) = afs_assert holds condition file line text

unfoldable pub perform_all : List Use → Console → Console
perform_all [] c = c
perform_all (u ∷ us) c = perform_all us (perform u c)

-- What it takes for a use to end the process.
abbrev pub is_fatal : Use → Bool
is_fatal (message text) = false
is_fatal (warning text) = false
is_fatal (error text) = true
is_fatal (debugging debug text) = false
is_fatal (assertion true condition file line text) = false
is_fatal (assertion false condition file line text) = true

abbrev pub has_ended : Console → Bool
has_ended (goes_on s) = false
has_ended (failed s) = true

abbrev pub any_fatal : List Use → Bool
any_fatal [] = false
any_fatal (u ∷ us) = if is_fatal u then true else any_fatal us

perform-failed : (u : Use) (s : Bytes) → perform u (failed s) ≡ failed s
unfolding perform log_msg log_warn log_err log_debug afs_assert
perform-failed (message text) s = refl
perform-failed (warning text) s = refl
perform-failed (error text) s = refl
perform-failed (debugging true text) s = refl
perform-failed (debugging false text) s = refl
perform-failed (assertion true condition file line text) s = refl
perform-failed (assertion false condition file line text) s = refl

-- After the process has ended, nothing is printed any more.
pub perform_all-failed : (us : List Use) (s : Bytes) → perform_all us (failed s) ≡ failed s
unfolding perform_all
perform_all-failed [] s = refl
perform_all-failed (u ∷ us) s = rw (perform-failed u s) (perform_all-failed us s)

perform-ended : (u : Use) (s : Bytes) → has_ended (perform u (goes_on s)) ≡ is_fatal u
unfolding perform log_msg log_warn log_err log_debug afs_assert
perform-ended (message text) s = refl
perform-ended (warning text) s = refl
perform-ended (error text) s = refl
perform-ended (debugging true text) s = refl
perform-ended (debugging false text) s = refl
perform-ended (assertion true condition file line text) s = refl
perform-ended (assertion false condition file line text) s = refl

perform_all_from :
    (us : List Use) (c : Console)
    → has_ended (perform_all us c) ≡ (if has_ended c then true else any_fatal us)
unfolding perform_all
perform_all_from [] (goes_on s) = refl
perform_all_from [] (failed s) = refl
perform_all_from (u ∷ us) (failed s) = rw (perform-failed u s) (perform_all_from us (failed s))
perform_all_from (u ∷ us) (goes_on s) =
    perform_all_from us (perform u (goes_on s))
    ∙ ap (λ b. if b then true else any_fatal us) (perform-ended u s)

-- A process that uses the macros in turn ends with a failure exactly if one of them is an error or a
-- failed assertion.
pub perform_all-ended :
    (us : List Use) (s : Bytes) → has_ended (perform_all us (goes_on s)) ≡ any_fatal us
perform_all-ended us s = perform_all_from us (goes_on s)
