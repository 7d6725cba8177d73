-- ===== src/Args/Parser/Laws.antt =====
-- What the operations of `ArgParser` say of each other.
use xbdm_gdb_bridge.Prelude.{
  ap, Bool, Bytes, List, [], arith, false, refl, true, ◌++◌, ◌≡◌, ◌∷◌, ◌&&◌, not,
}
use xbdm_gdb_bridge.Args.Data.{Argument, no_arguments}
use xbdm_gdb_bridge.Args.Parser.{
  split_around, from_tokens, is_delimiter, make, split_at, split_first,
}

-- No argument is the delimiter.
unfoldable pub none_matches : (Bytes → Bool) → List Argument → Bool
none_matches test [] = true
none_matches test (arg ∷ rest) = not (test arg.value) && none_matches test rest

split_first-hit :
    (test : Bytes → Bool) (before : List Argument) (hit : Argument) (after : List Argument)
    → none_matches test before ≡ true
    → test hit.value ≡ true
    → split_first test (before ++ hit ∷ after) ≡ (before, hit ∷ after)
unfolding split_first none_matches
split_first-hit test [] hit after free h = rw h
split_first-hit test (arg ∷ before) hit after free h =
    let other : test arg.value ≡ false = ground arith in
    let others : none_matches test before ≡ true = ground arith in
    rw (other, split_first-hit test before hit after others h)

split_first-miss :
    (test : Bytes → Bool) (args : List Argument)
    → none_matches test args ≡ true
    → split_first test args ≡ (args, [])
unfolding split_first none_matches
split_first-miss test [] free = refl
split_first-miss test (arg ∷ args) free =
    let other : test arg.value ≡ false = ground arith in
    let others : none_matches test args ≡ true = ground arith in
    rw (other, split_first-miss test args others)

-- `SplitAt` cuts at the first argument that is the delimiter: it answers true, `pre` keeps the
-- command and the arguments in front, and `post` is the command line that begins behind the
-- delimiter. Without such an argument it answers false, `pre` has all the arguments and `post`
-- none.
pub split_at_cases :
    (cmd : Bytes) (before after : List Argument) (hit : Argument) (delimiter : Bytes)
    (case_sensitive : Bool)
    → none_matches (is_delimiter delimiter case_sensitive) before ≡ true
    → is_delimiter delimiter case_sensitive hit.value ≡ true
    → (split_at
          (record { command = cmd; arguments = before ++ hit ∷ after })
          delimiter
          case_sensitive
        ≡ (true, (make cmd before, from_tokens after)))
      × (split_at (record { command = cmd; arguments = before }) delimiter case_sensitive
          ≡ (false, (make cmd before, no_arguments)))
unfolding split_at split_around
split_at_cases cmd before after hit delimiter case_sensitive free h =
    let test = is_delimiter delimiter case_sensitive in
    (
      ap (split_around cmd) (split_first-hit test before hit after free h),
      ap (split_around cmd) (split_first-miss test before free),
    )
