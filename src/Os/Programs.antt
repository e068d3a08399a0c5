-- ===== src/Os/Programs.antt =====
-- A program: it returns, exits the process, runs into undefined behaviour, or makes a call and
-- goes on with its answer.
use home_banking_system.Base.{◌≡◌, refl}
use home_banking_system.Base.Int.{ℤ}
use home_banking_system.Os.Calls.{Call, Answer}

pub data Prog (A : Type 0) : Type 0 where
  ret : A → Prog A
  exits : ℤ → Prog A
  undefined : Prog A
  call : (c : Call) → (Answer c → Prog A) → Prog A

infixl 5 ◌>>=◌ ◌>>◌
abbrev pub ◌>>=◌ : {A B : Type 0} → Prog A → (A → Prog B) → Prog B
ret a >>= f = f a
exits z >>= f = exits z
undefined >>= f = undefined
call c k >>= f = call c (λ r. k r >>= f)

abbrev pub ◌>>◌ : {A B : Type 0} → Prog A → Prog B → Prog B
m >> k = m >>= λ _. k

-- A call as a program of its own.
abbrev pub do_call : (c : Call) → Prog (Answer c)
do_call c = call c ret

pub >>=-assoc :
    {A B C : Type 0} (m : Prog A) (f : A → Prog B) (g : B → Prog C)
    → (m >>= f >>= g) ≡ (m >>= λ a. f a >>= g)
>>=-assoc (ret a) f g = refl
>>=-assoc (exits z) f g = refl
>>=-assoc undefined f g = refl
>>=-assoc (call c k) f g = λ i. call c (λ r. >>=-assoc (k r) f g i)
