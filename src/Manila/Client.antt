-- ===== src/Manila/Client.antt =====
-- openstack/manila/client.py: the exception that an answer of the API is turned into.
pub mod Conflicts
pub mod Resources
pub mod Timeouts
pub mod Tests
use arca_storage.Base.{
  ℕ, zero, suc, ◌+◌, Bool, true, false, not, ◌&&◌, ◌||◌, List, [], ◌∷◌, Text, codes, length, split,
  lower, has_text, starts_with, is_alnum, nat_eqb, leb, if◌then◌else◌,
}
use arca_storage.Results.{Result, ok, err}
use arca_storage.Manila.{
  ApiError, svm_not_found, svm_exists, share_not_found, share_exists, snapshot_not_found,
  network_conflict, other,
}

-- `\w` of ASCII text
abbrev pub is_word_char : ℕ → Bool
is_word_char c = is_alnum c || nat_eqb c b'_'

abbrev pub drop : ℕ → Text → Text
drop zero t = t
drop (suc n) [] = []
drop (suc n) (c ∷ t) = drop n t

abbrev pub begins_in_word : Text → Bool
begins_in_word [] = false
begins_in_word (c ∷ t) = is_word_char c

-- What stands behind the first `\bword\b`; `inside` tells whether a word character stands before.
unfoldable pub word_behind : Text → Bool → Text → Result (Unit {0}) Text
word_behind word inside [] = err tt
word_behind word inside (c ∷ t) =
    let rest = word_behind word (is_word_char c) t in
    let tail = drop (length word) (c ∷ t) in
    if not inside && starts_with word (c ∷ t) && not (begins_in_word tail) then ok tail else rest

-- The words stand in the text in this order, `\bw1\b.*\bw2\b.*...` in one line.
unfoldable pub has_words : List Text → Bool → Text → Bool
unfolding word_behind
has_words [] inside t = true
has_words (w ∷ ws) inside t = elim (word_behind w inside t) [
  | err _ ↦ false
  | ok rest ↦ has_words ws true rest
]

abbrev pub any_line : (Text → Bool) → List Text → Bool
any_line p [] = false
any_line p (l ∷ ls) = p l || any_line p ls

-- `ip_conflict_patterns` and `ip_in_use_patterns`
unfoldable pub is_ip_conflict : Text → Bool
unfolding has_words
is_ip_conflict t =
    has_text (codes "ip address already") t
    || has_text (codes "ip already") t
    || has_text (codes "address conflict") t
    || has_text (codes "ip conflict") t
    || any_line (has_words (codes "ip" ∷ codes "already" ∷ codes "in use" ∷ []) false) (split 10 t)
    || any_line (has_words (codes "ip address" ∷ codes "already" ∷ codes "in use" ∷ []) false)
        (split 10 t)

-- An answer with status 404, by the path of the request.
unfoldable pub missing_error : Text → ApiError
missing_error path =
    if has_text (codes "/volumes/") path
    then share_not_found
    else if has_text (codes "/snapshots/") path
    then snapshot_not_found
    else if has_text (codes "/svms/") path
    then svm_not_found
    else if has_text (codes "/exports") path
    then share_not_found
    else other []

-- An answer with status 409; the message is looked at in lower case.
unfoldable pub conflict_error : Text → Text → ApiError
unfolding is_ip_conflict
conflict_error path error_msg =
    let error_lower = lower error_msg in
    if is_ip_conflict error_lower
    then network_conflict
    else if has_text (codes "already exists") error_lower
    then (if has_text (codes "/svms") path then svm_exists else share_exists)
    else other []

-- The exception of an answer whose status is 400 or above.
unfoldable pub response_error : ℕ → Text → Text → ApiError
unfolding missing_error conflict_error
response_error status_code path error_msg =
    if nat_eqb status_code 404
    then missing_error path
    else if nat_eqb status_code 409
    then conflict_error path error_msg
    else other []
