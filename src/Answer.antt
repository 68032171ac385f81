-- ===== src/Answer.antt =====
-- What the single-threaded programs leave, and the order in which they search files; c/grep_std.c and
-- cpp/grep_std.cpp are compared with it.
pub mod Expected
use asmgrep.Base.{
  ℕ, ◌≡◌, refl, sym, ap, ◌∙◌, Bool, List, [], ◌∷◌, ◌++◌, append-nil, append_assoc, map, flatten,
  flatten-append, if◌then◌else◌, Bytes, Outcome, ok, fault, out_of_fuel, ◌>>=◌, Returns,
  Returns-bind, Returns-mono,
}
use asmgrep.Output.{line_bytes}
use asmgrep.Mt.Search.Agrees.{flag_after}

-- What is on the standard output when the program ends, and its exit status.
pub record Exit : Type 0 where
  pub stdout : Bytes
  pub status : ℕ

-- `usage`; its message goes to the standard error.
abbrev pub refused : Exit
refused = record { stdout = []; status = 2 }

-- `return g_matched ? 0 : 1`
unfoldable pub exit_of : Bytes → Bool → Exit
exit_of out matched = record { stdout = out; status = if matched then 0 else 1 }

-- Files searched one after the other.
unfoldable pub search_all : {S : Type 0} → (Bytes → S → Outcome S) → List Bytes → S → Outcome S
search_all search [] s = ok s
search_all search (p ∷ ps) s = do s' ← search p s; search_all search ps s'

pub bind_assoc :
    {A B C : Type 0} (m : Outcome A) (f : A → Outcome B) (g : B → Outcome C)
    → ((m >>= f) >>= g) ≡ (m >>= (λ a. f a >>= g))
bind_assoc (ok a) f g = refl
bind_assoc fault f g = refl
bind_assoc out_of_fuel f g = refl

pub bind_ok : {A : Type 0} (m : Outcome A) → (m >>= ok) ≡ m
bind_ok (ok a) = refl
bind_ok fault = refl
bind_ok out_of_fuel = refl

pub bind_ext :
    {A B : Type 0} (m : Outcome A) (f g : A → Outcome B)
    → ((a : A) → f a ≡ g a)
    → (m >>= f) ≡ (m >>= g)
bind_ext (ok a) f g h = h a
bind_ext fault f g h = refl
bind_ext out_of_fuel f g h = refl

pub search_all-append :
    {S : Type 0} (search : Bytes → S → Outcome S) (ps qs : List Bytes) (s : S)
    → search_all search (ps ++ qs) s ≡ (search_all search ps s >>= search_all search qs)
unfolding search_all
search_all-append search [] qs s = refl
search_all-append search (p ∷ ps) qs s =
    bind_ext (search p s) _ _ (λ t. search_all-append search ps qs t)
    ∙ sym (bind_assoc (search p s) (search_all search ps) (search_all search qs))

pub search_all-one :
    {S : Type 0} (search : Bytes → S → Outcome S) (p : Bytes) (s : S)
    → search_all search (p ∷ []) s ≡ search p s
unfolding search_all
search_all-one search p s = bind_ok (search p s)

-- The bytes printed for files, `lines` being the lines selected in the file at a path; the same as
-- a list of the printed lines; and the match flag after them.
abbrev pub found_in : Bool → (Bytes → List Bytes) → List Bytes → Bytes
found_in multi lines [] = []
found_in multi lines (p ∷ ps) =
    flatten (map (line_bytes multi p) (lines p)) ++ found_in multi lines ps

abbrev pub lines_found : Bool → (Bytes → List Bytes) → List Bytes → List Bytes
lines_found multi lines [] = []
lines_found multi lines (p ∷ ps) = map (line_bytes multi p) (lines p) ++ lines_found multi lines ps

pub flatten-lines_found :
    (multi : Bool) (lines : Bytes → List Bytes) (ps : List Bytes)
    → flatten (lines_found multi lines ps) ≡ found_in multi lines ps
flatten-lines_found multi lines [] = refl
flatten-lines_found multi lines (p ∷ ps) =
    flatten-append (map (line_bytes multi p) (lines p)) (lines_found multi lines ps)
    ∙ ap (λ r. flatten (map (line_bytes multi p) (lines p)) ++ r)
        (flatten-lines_found multi lines ps)

abbrev pub any_in : (Bytes → List Bytes) → List Bytes → Bool → Bool
any_in lines [] b = b
any_in lines (p ∷ ps) b = any_in lines ps (flag_after (lines p) b)

-- A program's state, as its output and its match flag, grows by the lines of the files.
abbrev pub Shows :
    {S : Type 0}
    → (S → Bytes)
    → (S → Bool)
    → Bool
    → (Bytes → List Bytes)
    → List Bytes
    → S
    → S
    → Type 0
Shows out matched multi lines ps s t =
    (out t ≡ out s ++ found_in multi lines ps) × (matched t ≡ any_in lines ps (matched s))

-- Nothing is printed for a file without selected lines.
pub Shows-nothing :
    {S : Type 0} (out : S → Bytes) (matched : S → Bool) (multi : Bool) (lines : Bytes → List Bytes)
    (p : Bytes) (s : S)
    → [] ≡ lines p
    → Shows out matched multi lines (p ∷ []) s s
Shows-nothing out matched multi lines p s e = (
  sym (append-nil (out s)) ∙ ap (λ ls. out s ++ (flatten (map (line_bytes multi p) ls) ++ [])) e,
  ap (λ ls. flag_after ls (matched s)) e,
)

module _ {S : Type 0} (out : S → Bytes) (matched : S → Bool) (multi : Bool)
    (lines : Bytes → List Bytes) (search : Bytes → S → Outcome S)
    (shows : (p : Bytes) (s : S)
      → Returns (search p s) (Shows out matched multi lines (p ∷ []) s)) where
  pub search_all-Shows :
      (ps : List Bytes) (s : S)
      → Returns (search_all search ps s) (Shows out matched multi lines ps s)
  unfolding search_all
  search_all-Shows [] s = (sym (append-nil (out s)), refl)
  search_all-Shows (p ∷ ps) s =
      let here = flatten (map (line_bytes multi p) (lines p)) in
      Returns-bind (search p s) _ (Shows out matched multi lines (p ∷ []) s) _ (shows p s)
        (λ t first.
          Returns-mono (search_all search ps t) (Shows out matched multi lines ps t) _
            (search_all-Shows ps t)
            (λ u others. (
              others.0
                  ∙ ap (λ o. o ++ found_in multi lines ps)
                      (first.0 ∙ ap (λ o. out s ++ o) (append-nil here))
                  ∙ append_assoc (out s) here (found_in multi lines ps),
              others.1 ∙ ap (any_in lines ps) first.1,
            )))

  pub search_all-exit :
      (ps : List Bytes) (s : S)
      → out s ≡ []
      → matched s ≡ Bool.false
      → (search_all search ps s >>= (λ t. ok (exit_of (out t) (matched t))))
        ≡ ok (exit_of (found_in multi lines ps) (any_in lines ps Bool.false))
  search_all-exit ps s none_out none_matched =
      ended (search_all search ps s) (search_all-Shows ps s)
    where
      ended :
          (r : Outcome S)
          → Returns r (Shows out matched multi lines ps s)
          → (r >>= (λ t. ok (exit_of (out t) (matched t))))
            ≡ ok (exit_of (found_in multi lines ps) (any_in lines ps Bool.false))
      ended (ok t) (o, m) =
          ap (λ b. ok (exit_of b (matched t))) (o ∙ ap (λ b. b ++ found_in multi lines ps) none_out)
          ∙ ap (λ b. ok (exit_of (found_in multi lines ps) b))
              (m ∙ ap (any_in lines ps) none_matched)
      ended fault h = absurd h
      ended out_of_fuel h = absurd h
