-- ===== src/User/Parse/Words.antt =====
-- `parse_req_args` of user_f/user_parse.c on words joined by spaces.
use home_banking_system.Base.{
  ℕ, zero, suc, ◌≡◌, ◌≢◌, refl, ap, ◌∙◌, ne→==, none, some, List, [], ◌∷◌, ◌++◌, ltb, ◌==◌,
  if◌then◌else◌, length, arith,
}
use home_banking_system.Base.Options.{◌>>=◌}
use home_banking_system.User.Parse.{skip_delim, token, strtok, req_args_loop, parse_req_args}

abbrev pub NoSpace : List ℕ → Type 0
NoSpace [] = Unit
NoSpace (c ∷ cs) = (c ≢ 32) × NoSpace cs

-- A word has a byte and no space.
abbrev pub IsWord : List ℕ → Type 0
IsWord [] = ⊥
IsWord (c ∷ cs) = (c ≢ 32) × NoSpace cs

abbrev pub AllWords : List (List ℕ) → Type 0
AllWords [] = Unit
AllWords (w ∷ ws) = IsWord w × AllWords ws

abbrev pub join_spaces : List (List ℕ) → List ℕ
join_spaces [] = []
join_spaces (w ∷ []) = w
join_spaces (w ∷ v ∷ ws) = w ++ 32 ∷ join_spaces (v ∷ ws)

token-append : (cs s : List ℕ) → NoSpace cs → token (cs ++ 32 ∷ s) ≡ (cs, s)
unfolding token
token-append [] s h = refl
token-append (c ∷ cs) s (h, hs) = rw (ne→== c 32 h, token-append cs s hs) refl

token_all : (cs : List ℕ) → NoSpace cs → token cs ≡ (cs, [])
unfolding token
token_all [] h = refl
token_all (c ∷ cs) (h, hs) = rw (ne→== c 32 h, token_all cs hs) refl

strtok_step : (c : ℕ) (s : List ℕ) → c ≢ 32 → strtok (c ∷ s) ≡ some (token (c ∷ s))
unfolding strtok skip_delim token
strtok_step c s h = ground arith

strtok-append : (w s : List ℕ) → IsWord w → strtok (w ++ 32 ∷ s) ≡ some (w, s)
strtok-append [] s h = absurd h
strtok-append (c ∷ cs) s h =
    strtok_step c (cs ++ 32 ∷ s) (h.0) ∙ ap some (token-append (c ∷ cs) s h)

strtok_all : (w : List ℕ) → IsWord w → strtok w ≡ some (w, [])
strtok_all [] h = absurd h
strtok_all (c ∷ cs) h = strtok_step c cs (h.0) ∙ ap some (token_all (c ∷ cs) h)

-- One round: a token, and the rest of the arguments.
loop_step :
    (k : ℕ) (s t rest : List ℕ)
    → strtok s ≡ some (t, rest)
    → req_args_loop (suc k) s
      ≡ (if k == 0 then none else (req_args_loop k rest >>= λ args. some (t ∷ args)))
unfolding req_args_loop
loop_step k s t rest e = rw (e, req_args_loop) refl

loop_end : (k : ℕ) → req_args_loop k [] ≡ some []
unfolding req_args_loop strtok skip_delim
loop_end zero = refl
loop_end (suc k) = refl

-- With `k + 1` rounds there is room for `k` words.
loop_lem :
    (k : ℕ) (ws : List (List ℕ))
    → AllWords ws
    → req_args_loop (suc k) (join_spaces ws) ≡ (if ltb k (length ws) then none else some ws)
loop_lem k [] h = loop_end (suc k) ∙ ground arith
loop_lem zero (w ∷ []) (h, hs) = loop_step 0 w w [] (strtok_all w h)
loop_lem zero (w ∷ v ∷ ws) (h, hs) =
    loop_step 0 (w ++ 32 ∷ join_spaces (v ∷ ws)) w (join_spaces (v ∷ ws))
      (strtok-append w (join_spaces (v ∷ ws)) h)
    ∙ ground arith
loop_lem (suc k) (w ∷ []) (h, hs) =
    loop_step (suc k) w w [] (strtok_all w h) ∙ ground (arith, loop_end (suc k))
loop_lem (suc k) (w ∷ v ∷ ws) (h, hs) =
    loop_step (suc k) (w ++ 32 ∷ join_spaces (v ∷ ws)) w (join_spaces (v ∷ ws))
      (strtok-append w (join_spaces (v ∷ ws)) h)
    ∙ ground (arith, loop_lem k (v ∷ ws) hs)

-- For words without a space, none of them empty, joined by single spaces, `parse_req_args` gives
-- exactly the words, if there are at most three, and -1 for more.
pub parse_req_args-join_spaces :
    (ws : List (List ℕ))
    → AllWords ws
    → parse_req_args (join_spaces ws) ≡ (if ltb 3 (length ws) then none else some ws)
unfolding parse_req_args
parse_req_args-join_spaces ws h = loop_lem 3 ws h
