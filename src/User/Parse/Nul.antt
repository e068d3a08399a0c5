-- ===== src/User/Parse/Nul.antt =====
-- What `strtok` and `parse_req_args` of user_f/user_parse.c take from a string without a NUL.
use home_banking_system.Base.{
  ℕ, zero, suc, subst, Option, none, some, List, [], ◌∷◌, ◌==◌, Bool-cases, Option-cases, inl, inr,
}
use home_banking_system.Shared.Protocol.Delivery.{NoNul}
use home_banking_system.User.Parse.{skip_delim, token, strtok, req_args_loop, parse_req_args}

-- The parts of a string without a NUL have none.
abbrev pub AllNoNul : List (List ℕ) → Type 0
AllNoNul [] = Unit
AllNoNul (s ∷ ss) = NoNul s × AllNoNul ss

skip_delim-NoNul : (s : List ℕ) → NoNul s → NoNul (skip_delim s)
unfolding skip_delim
skip_delim-NoNul [] h = tt
skip_delim-NoNul (c ∷ cs) (h, hs) = elim (Bool-cases (c == 32)) [
  | inl e ↦ rw e (skip_delim-NoNul cs hs)
  | inr e ↦ rw e (h, hs)
]

token-NoNul : (s : List ℕ) → NoNul s → NoNul ((token s).0) × NoNul ((token s).1)
unfolding token
token-NoNul [] h = (tt, tt)
token-NoNul (c ∷ cs) (h, hs) = elim (Bool-cases (c == 32)) [
  | inl e ↦ rw e (tt, hs)
  | inr e ↦ let (first, last) = token-NoNul cs hs in rw e ((h, first), last)
]

abbrev TokenNoNul : Option (List ℕ × List ℕ) → Type 0
TokenNoNul none = Unit
TokenNoNul (some (t, rest)) = NoNul t × NoNul rest

token_of-NoNul :
    (d : List ℕ) → NoNul d → TokenNoNul (elim d [ [] ↦ none | c ∷ cs ↦ some (token (c ∷ cs)) ])
token_of-NoNul [] h = tt
token_of-NoNul (c ∷ cs) h = token-NoNul (c ∷ cs) h

strtok-NoNul : (s : List ℕ) → NoNul s → TokenNoNul (strtok s)
unfolding strtok
strtok-NoNul s h = token_of-NoNul (skip_delim s) (skip_delim-NoNul s h)

abbrev pub ArgsNoNul : Option (List (List ℕ)) → Type 0
ArgsNoNul none = Unit
ArgsNoNul (some args) = AllNoNul args

req_args_loop-NoNul : (k : ℕ) (s : List ℕ) → NoNul s → ArgsNoNul (req_args_loop k s)
unfolding req_args_loop
req_args_loop-NoNul zero s h = tt
req_args_loop-NoNul (suc k) s h = elim (Option-cases (strtok s)) [
  | inl e ↦ rw (ArgsNoNul, e) tt
  | inr ((t, rest), e) ↦
      let (first, last) = subst TokenNoNul e (strtok-NoNul s h) in
      elim (Bool-cases (k == 0)) [
        | inl c ↦ rw (ArgsNoNul, e, c) tt
        | inr c ↦ elim (Option-cases (req_args_loop k rest)) [
          | inl f ↦ rw (ArgsNoNul, e, c, f) tt
          | inr (args, f) ↦
              rw (ArgsNoNul, e, c, f) (first, subst ArgsNoNul f (req_args_loop-NoNul k rest last))
        ]
      ]
]

pub parse_req_args-NoNul : (s : List ℕ) → NoNul s → ArgsNoNul (parse_req_args s)
unfolding parse_req_args
parse_req_args-NoNul s h = req_args_loop-NoNul 4 s h
