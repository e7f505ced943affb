-- ===== src/Client/Arguments.antt =====
-- What parseDynamicArgs of cmd/mistry/main.go makes of the arguments that users write.
use mistry.Base.{
  Bool, true, false, List, [], ◌∷◌, ◌++◌, ◌==◌, nat_eq, list_eq, contains, ◌&&◌, not, refl, arith,
  ◌≡◌, ◌∙◌, All,
}
use mistry.Base.Int.{int_eq}
use mistry.Base.Dict.{insert}
use mistry.Base.Text.{Str, trim_left, split}
use mistry.Base.Split.{split-append, split-whole}
use mistry.Types.{Params}
use mistry.Client.{parse_from, store_parts, strip_dashes, equals_sign, dash, parse_dynamic_args}

-- The ways in which a user writes a parameter: `--key value` and `--key=value`.
pub data Written : Type 0 where
  spaced : (key value : Str) → Written
  joined : (key value : Str) → Written

abbrev pub words_of : Written → List Str → List Str
words_of (spaced key value) args = (dash ∷ dash ∷ key) ∷ value ∷ args
words_of (joined key value) args = (dash ∷ dash ∷ (key ++ (equals_sign ∷ value))) ∷ args

abbrev pub write_args : List Written → List Str
write_args [] = []
write_args (w ∷ ws) = words_of w (write_args ws)

abbrev pub begins_with_dash : Str → Bool
begins_with_dash [] = false
begins_with_dash (c ∷ s) = c == dash

abbrev is_key : Str → Bool
is_key key = not (contains key equals_sign) && not (begins_with_dash key)

-- A key has no equals sign and does not begin with a dash, and a value after an equals sign has
-- none itself.
abbrev pub is_plain : Written → Bool
is_plain (spaced key value) = is_key key
is_plain (joined key value) = is_key key && not (contains value equals_sign)

abbrev pub store_all : Params → List Written → Params
store_all parsed [] = parsed
store_all parsed (spaced key value ∷ ws) = store_all (insert key value parsed) ws
store_all parsed (joined key value ∷ ws) = store_all (insert key value parsed) ws

strip_dashes_lem : (s : Str) → begins_with_dash s ≡ false → strip_dashes (dash ∷ dash ∷ s) ≡ s
unfolding trim_left
strip_dashes_lem [] h = refl
strip_dashes_lem (c ∷ s) h = ground arith

contains-middle : (key value : Str) → contains (key ++ (equals_sign ∷ value)) equals_sign ≡ true
contains-middle [] value = refl
contains-middle (c ∷ key) value = ground (arith, contains-middle key value)

begins-append :
    (key value : Str)
    → begins_with_dash key ≡ false
    → begins_with_dash (key ++ (equals_sign ∷ value)) ≡ false
begins-append [] value h = refl
begins-append (c ∷ key) value h = h

parse_from-joined :
    (parsed : Params) (arg : Str) (args : List Str)
    → contains (strip_dashes arg) equals_sign ≡ true
    → parse_from parsed (arg ∷ args)
      ≡ parse_from (store_parts parsed (split (strip_dashes arg) equals_sign)) args
unfolding parse_from
parse_from-joined parsed arg [] h = ground (arith, h)
parse_from-joined parsed arg (value ∷ args) h = ground (arith, h)

parse_from-spaced :
    (parsed : Params) (arg value : Str) (args : List Str)
    → contains (strip_dashes arg) equals_sign ≡ false
    → parse_from parsed (arg ∷ value ∷ args)
      ≡ parse_from (insert (strip_dashes arg) value parsed) args
unfolding parse_from
parse_from-spaced parsed arg value args h = ground (arith, h)

-- What one written parameter does to the map.
parse_from-words :
    (parsed : Params) (w : Written) (args : List Str)
    → is_plain w ≡ true
    → parse_from parsed (words_of w args) ≡ parse_from (store_all parsed (w ∷ [])) args
parse_from-words parsed (spaced key value) args h =
    let bare = strip_dashes_lem key (ground arith) in
    parse_from-spaced parsed (dash ∷ dash ∷ key) value args (rw bare (ground arith)) ∙ rw bare refl
parse_from-words parsed (joined key value) args h =
    let bare =
      strip_dashes_lem (key ++ (equals_sign ∷ value)) (begins-append key value (ground arith)) in
    parse_from-joined parsed (dash ∷ dash ∷ (key ++ (equals_sign ∷ value))) args
      (rw bare (contains-middle key value))
    ∙ rw
        (
          bare,
          split-append key value equals_sign (ground arith),
          split-whole value equals_sign (ground arith),
        )
        refl

parse_from-write_args :
    (parsed : Params) (ws : List Written)
    → All (λ w. is_plain w ≡ true) ws
    → parse_from parsed (write_args ws) ≡ store_all parsed ws
unfolding parse_from
parse_from-write_args parsed [] h = refl
parse_from-write_args parsed (spaced key value ∷ ws) h =
    parse_from-words parsed (spaced key value) (write_args ws) h.0
    ∙ parse_from-write_args (insert key value parsed) ws h.1
parse_from-write_args parsed (joined key value ∷ ws) h =
    parse_from-words parsed (joined key value) (write_args ws) h.0
    ∙ parse_from-write_args (insert key value parsed) ws h.1

-- The arguments in which a user writes parameters, each as `--key value` or as `--key=value`, are
-- read as these parameters, a later one in place of an earlier one with its key, if no key begins
-- with a dash or has an equals sign, and no value written after an equals sign has one.
pub parse_dynamic_args-write_args :
    (ws : List Written)
    → All (λ w. is_plain w ≡ true) ws
    → parse_dynamic_args (write_args ws) ≡ store_all [] ws
parse_dynamic_args-write_args ws h = parse_from-write_args [] ws h

-- A value written as `--key=a=b`, where the key is as above and `a` has no equals sign, is read as
-- `a` alone.
pub parse_dynamic_args-truncates :
    (key a b : Str)
    → begins_with_dash key ≡ false
    → contains key equals_sign ≡ false
    → contains a equals_sign ≡ false
    → parse_dynamic_args ((dash ∷ dash ∷ (key ++ (equals_sign ∷ (a ++ (equals_sign ∷ b))))) ∷ [])
      ≡ (key, a) ∷ []
unfolding parse_from insert
parse_dynamic_args-truncates key a b hd hk ha =
    let bare =
      strip_dashes_lem (key ++ (equals_sign ∷ (a ++ (equals_sign ∷ b))))
        (begins-append key (a ++ (equals_sign ∷ b)) hd) in
    parse_from-joined [] (dash ∷ dash ∷ (key ++ (equals_sign ∷ (a ++ (equals_sign ∷ b))))) []
      (rw bare (contains-middle key (a ++ (equals_sign ∷ b))))
    ∙ rw
        (
          bare,
          split-append key (a ++ (equals_sign ∷ b)) equals_sign hk,
          split-append a b equals_sign ha,
        )
        refl
