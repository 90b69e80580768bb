-- ===== src/Ft/Listing.antt =====
-- A directory, as the server lists it and the client prints it.
use socketlab.Base.{
  ℕ, zero, suc, ◌≤◌, ◌<◌, ◌≡◌, ◌≢◌, ◌⊎◌, inl, inr, refl, sym, ap, ap₂, ◌∙◌, List, [], ◌∷◌, ◌++◌,
  some, Bool, true, false, arith, append_assoc, if◌then◌else◌, length, length-append, take_all, All,
  All-append, get_or, set, ◌==◌, Bool-cases, concat,
}
use socketlab.Base.Int.{ℤ, pos, is_zero}
use socketlab.Sys.{Call, recv, send, readdir, closedir, Env, done, filled}
use socketlab.Ft
use socketlab.Ft.{c_string, buf_size}
use socketlab.Ft.Server.{list_dir, send_end}
use socketlab.Ft.Client.{before_end, print_body}
use socketlab.Ft.Sent.{sent}

abbrev is_hidden : List ℕ → Bool
is_hidden name = get_or name 0 0 == 46

-- What is sent for the names: those that are not hidden, each with an end of line.
abbrev pub listing : List (List ℕ) → List ℕ
listing [] = []
listing (x ∷ xs) = if is_hidden x then listing xs else (x ++ (10 ∷ [])) ++ listing xs

-- The calls before an entry, and those of the whole loop.
abbrev after_entry : ℤ → ℤ → List ℕ → List Call → List Call
after_entry fd dir x t =
    if is_hidden x then readdir dir ∷ t else send fd (x ++ (10 ∷ [])) ∷ readdir dir ∷ t

abbrev pub list_calls : ℤ → ℤ → List (List ℕ) → List Call → List Call
list_calls fd dir [] t = closedir dir ∷ send fd (Ft.end ∷ []) ∷ readdir dir ∷ t
list_calls fd dir (x ∷ xs) t = list_calls fd dir xs (after_entry fd dir x t)

-- After the calls `t`, the directory gives these names and then a null pointer.
abbrev Entries : Env → ℤ → ℤ → List (List ℕ) → List Call → Type 0
Entries env fd dir [] t = (env t (readdir dir)).ret ≡ pos 0
Entries env fd dir (x ∷ xs) t =
    (is_zero (env t (readdir dir)).ret ≡ false)
    × (c_string (env t (readdir dir)).out ≡ x)
    × Entries env fd dir xs (after_entry fd dir x t)

list_dir-lem :
    (turns : ℕ) (fd dir : ℤ) (names : List (List ℕ)) (buf : List ℕ) (env : Env) (t : List Call)
    → Entries env fd dir names t
    → length names < turns
    → (b : List ℕ) × (list_dir turns fd dir buf env t ≡ (done (some b), list_calls fd dir names t))
unfolding list_dir send_end
list_dir-lem zero fd dir names buf env t r h = absurd (omega arith)
list_dir-lem (suc turns) fd dir [] buf env t r h = (set buf 0 Ft.end, rw r refl)
list_dir-lem (suc turns) fd dir (x ∷ xs) buf env t (more, name, rest) h =
    elim (Bool-cases (is_hidden x)) [
      | inl e ↦
          (let (b, r) =
              list_dir-lem turns fd dir xs buf env (readdir dir ∷ t) (rw e at rest) (omega arith) in
            (b, rw (more, name, e) r))
      | inr e ↦
          (let (b, r) =
              list_dir-lem turns fd dir xs (filled (x ++ (10 ∷ 0 ∷ [])) buf) env
                (send fd (x ++ (10 ∷ [])) ∷ readdir dir ∷ t) (rw e at rest) (omega arith) in
            (b, rw (more, name, e) r))
    ]

sent-list_calls :
    (fd : ℕ) (dir : ℤ) (names : List (List ℕ)) (t : List Call)
    → sent (pos fd) (list_calls (pos fd) dir names t)
      ≡ sent (pos fd) t ++ (listing names ++ (Ft.end ∷ []))
unfolding sent
sent-list_calls fd dir [] t = ground arith
sent-list_calls fd dir (x ∷ xs) t = elim (Bool-cases (is_hidden x)) [
  | inl e ↦ rw e (sent-list_calls fd dir xs (readdir dir ∷ t))
  | inr e ↦ rw e (
      sent-list_calls fd dir xs (send (pos fd) (x ++ (10 ∷ [])) ∷ readdir dir ∷ t)
      ∙ ap (λ s. s ++ (listing xs ++ (Ft.end ∷ []))) (ground arith)
      ∙ append_assoc (sent (pos fd) t) (x ++ (10 ∷ [])) (listing xs ++ (Ft.end ∷ []))
      ∙ ap (λ s. sent (pos fd) t ++ s)
          (sym (append_assoc (x ++ (10 ∷ [])) (listing xs) (Ft.end ∷ []))))
]

abbrev tail : List ℕ → List ℕ
tail [] = []
tail (c ∷ cs) = cs

-- A part `c` of a text with END behind it, which may be all of it.
Part : List ℕ → List ℕ → List ℕ → Type 0
Part c rest text =
    ((more : List ℕ) × (before_end c ≡ (c, false))
      × (text ≡ c ++ more)
      × (rest ≡ more ++ (Ft.end ∷ []))
      × All (λ b. b ≢ Ft.end) more)
    ⊎ (before_end c ≡ (text, true))

first_end : (x : ℕ) (c : List ℕ) → x ≡ Ft.end → before_end (x ∷ c) ≡ ([], true)
unfolding before_end
first_end x c e = rw e refl

first_other :
    (x : ℕ) (c : List ℕ)
    → x ≢ Ft.end
    → before_end (x ∷ c) ≡ (x ∷ (before_end c).0, (before_end c).1)
unfolding before_end
first_other x c e = rw other refl
  where
    other : (x == Ft.end) ≡ false
    other = ground arith

before_end-Part :
    (c rest text : List ℕ)
    → c ++ rest ≡ text ++ (Ft.end ∷ [])
    → All (λ b. b ≢ Ft.end) text
    → Part c rest text
unfolding before_end Part
before_end-Part [] rest text e h = inl (text, refl, refl, e, h)
before_end-Part (x ∷ c) rest [] e h = inr (first_end x c (ap (λ l. get_or l 0 0) e))
before_end-Part (x ∷ c) rest (y ∷ text) e h = elim (before_end-Part c rest text (ap tail e) h.1) [
  | inl (more, be, te, re, hm) ↦
      inl (more, first ∙ ap (λ p. (x ∷ p.0, p.1)) be, ap₂ (λ z l. z ∷ l) (sym same) te, re, hm)
  | inr be ↦ inr (first ∙ ap (λ p. (x ∷ p.0, p.1)) be ∙ ap (λ z. (z ∷ text, true)) same)
]
  where
    same : x ≡ y
    same = ap (λ l. get_or l 0 0) e

    first : before_end (x ∷ c) ≡ (x ∷ (before_end c).0, (before_end c).1)
    first = first_other x c (λ z. h.0 (sym same ∙ z))

-- After the calls `t`, the socket delivers the parts as they are asked for.
abbrev Gets : Env → ℤ → List (List ℕ) → List Call → Type 0
Gets env fd [] t = Unit
Gets env fd (c ∷ cs) t =
    ((env t (recv fd buf_size)).ret ≡ pos (length c))
    × ((env t (recv fd buf_size)).out ≡ c)
    × Gets env fd cs (recv fd buf_size ∷ t)

print_body-lem :
    (turns : ℕ) (fd : ℤ) (printed text : List ℕ) (chunks : List (List ℕ)) (env : Env)
    (t : List Call)
    → Gets env fd chunks t
    → concat chunks ≡ text ++ (Ft.end ∷ [])
    → All (λ b. b ≢ Ft.end) text
    → length chunks ≤ turns
    → (u : List Call) × (print_body turns fd printed env t
        ≡ (done (some (pos 0, printed ++ (text ++ (10 ∷ [])))), u))
unfolding print_body Part
print_body-lem turns fd printed text [] env t g e h n =
    absurd (omega (arith, ap length e, length-append text (Ft.end ∷ [])))
print_body-lem zero fd printed text (c ∷ cs) env t g e h n = absurd (omega arith)
print_body-lem (suc turns) fd printed text (c ∷ cs) env t (ret, out, g) e h n =
    elim (before_end-Part c (concat cs) text e h) [
      | inl (more, be, te, re, hm) ↦
          (let (u, r) =
              print_body-lem turns fd (printed ++ c) more cs env (recv fd buf_size ∷ t) g re hm
                (omega arith) in
            (
              u,
              rw (ret, out, take_all (length c) c (omega arith), be, te)
                  (r
                    ∙ ap (λ s. (done (some (pos 0, s)), u))
                        (append_assoc printed c (more ++ (10 ∷ []))
                          ∙ ap (λ s. printed ++ s) (sym (append_assoc c more (10 ∷ []))))),
            ))
      | inr be ↦ (recv fd buf_size ∷ t, rw (ret, out, take_all (length c) c (omega arith), be) refl)
    ]

-- No name has the byte END.
abbrev NoEnd : List (List ℕ) → Type 0
NoEnd = All (λ x. All (λ b. b ≢ Ft.end) x)

listing-NoEnd : (names : List (List ℕ)) → NoEnd names → All (λ b. b ≢ Ft.end) (listing names)
listing-NoEnd [] h = tt
listing-NoEnd (x ∷ xs) h = elim (Bool-cases (is_hidden x)) [
  | inl e ↦ rw e (listing-NoEnd xs h.1)
  | inr e ↦ rw e (
      All-append (λ b. b ≢ Ft.end) (x ++ (10 ∷ [])) (listing xs)
        (All-append (λ b. b ≢ Ft.end) x (10 ∷ []) h.0 ((λ z. absurd (omega arith)), tt))
        (listing-NoEnd xs h.1))
]

-- A directory. The loop of the server (with a turn for each entry and one more) sends the names that
-- do not begin with a dot, each with an end of line, then END, and closes the directory. When the names
-- do not have the byte END and these bytes reach the client, in any parts, PRINT_RESPONSE_BODY prints
-- just them and an end of line, and returns 0, with a turn for each part.
pub ls_lists :
    (turns turns' fd : ℕ) (dir fd' : ℤ) (names chunks : List (List ℕ)) (buf : List ℕ)
    (env env' : Env) (t t' : List Call)
    → Entries env (pos fd) dir names t
    → length names < turns
    → NoEnd names
    → concat chunks ≡ listing names ++ (Ft.end ∷ [])
    → Gets env' fd' chunks t'
    → length chunks ≤ turns'
    → ((b : List ℕ) × (list_dir turns (pos fd) dir buf env t
          ≡ (done (some b), list_calls (pos fd) dir names t)))
      × (sent (pos fd) (list_calls (pos fd) dir names t)
          ≡ sent (pos fd) t ++ (listing names ++ (Ft.end ∷ [])))
      × ((u : List Call) × (print_body turns' fd' [] env' t'
            ≡ (done (some (pos 0, listing names ++ (10 ∷ []))), u)))
ls_lists turns turns' fd dir fd' names chunks buf env env' t t' entries n clean same g n' = (
  list_dir-lem turns (pos fd) dir names buf env t entries n,
  sent-list_calls fd dir names t,
  print_body-lem turns' fd' [] (listing names) chunks env' t' g same (listing-NoEnd names clean) n',
)
