-- ===== src/Board/Password/Accepted.antt =====
-- Which passwords `CheckPwd` accepts, from a table of characters and the layout of the text.
use softupdate.Prelude.{
  ℕ, zero, suc, ◌+◌, ◌^◌, ◌≤◌, ◌*◌, ◌%◌, ◌<◌, ◌≡◌, ◌↔◌, refl, ap, ap₂, sym, ◌∙◌, Bool, true, ◌&&◌,
  some, some_inj, List, [], ◌∷◌, ◌++◌, arith, ◌==◌, ==_iff, Bool-cases, inl, inr, length, take,
  drop, replicate, get_or, get_elem?, bytes_eq, bytes_eq_refl, bytes_eq_sound,
}
use softupdate.Prelude.Int.{pos}
use softupdate.Text.{codes}
use softupdate.Md5.Context.{md5_data}
use softupdate.Md5.Digest.{md_bytes_shape, md_bytes-eq-rfc, rfc_md5}
use softupdate.Board.Hex.{c_str}
use softupdate.Board.Password.{password_char, password_chars, password_text, password, check_pwd}

-- The characters of a password.
abbrev pub alphabet : List ℕ
alphabet = codes "ABCDEFGHIJKLMNOPQRSTUVWXYZ0123456789abcdefghijklmnopqrstuvwxyz"

-- The `i`-th pair of a digest, the low byte first, picks the character.
abbrev pub picked : List ℕ → ℕ → ℕ
picked digest i =
    get_or alphabet ((get_or digest (2 * i) 0 + 256 * get_or digest (2 * i + 1) 0) % 62) 0

agrees_below : ℕ → Bool
agrees_below zero = true
agrees_below (suc n) = agrees_below n && (password_char n == get_or alphabet n 0)

all_agree : agrees_below 62 ≡ true
unfolding agrees_below password_char
all_agree = refl

agrees_at : (n t : ℕ) → agrees_below n ≡ true → t < n → password_char t ≡ get_or alphabet t 0
unfolding agrees_below
agrees_at zero t h k = absurd (omega arith)
agrees_at (suc n) t h k = elim (Bool-cases (t == n)) [
  | inl same ↦
      let e : t ≡ n = (==_iff t n).0 same in
      let here : (password_char n == get_or alphabet n 0) ≡ true = grind (arith, h) in
      rw e ((==_iff (password_char n) (get_or alphabet n 0)).0 here)
  | inr other ↦
      agrees_at n t (grind (arith, h))
        (let apart : (t ≡ n) → (t == n) ≡ true = (==_iff t n).1 in grind (arith, other, apart))
]

sum : (lo hi : ℕ) → hi * 256 + lo ≡ lo + 256 * hi
sum lo hi = omega arith

-- One more pair.
chars_step :
    (k lo hi p : ℕ) (digest pwd : List ℕ)
    → ((password_chars digest ≡ take k pwd)
        ↔ ((i : ℕ) → i < k → get_elem? pwd i ≡ some (picked digest i)))
    → (password_chars (lo ∷ hi ∷ digest) ≡ p ∷ take k pwd)
      ↔ ((i : ℕ) → i < suc k → get_elem? (p ∷ pwd) i ≡ some (picked (lo ∷ hi ∷ digest) i))
unfolding password_chars
chars_step k lo hi p digest pwd rest = (there, back)
  where
    first : password_char ((hi * 256 + lo) % 62) ≡ picked (lo ∷ hi ∷ digest) 0
    first =
        agrees_at 62 ((hi * 256 + lo) % 62) all_agree (omega arith)
        ∙ ap (λ v. get_or alphabet (v % 62) 0) (sum lo hi)

    later : (i : ℕ) → picked (lo ∷ hi ∷ digest) (suc i) ≡ picked digest i
    later i =
        let even : 2 * suc i ≡ suc (suc (2 * i)) = omega arith in
        let odd : 2 * suc i + 1 ≡ suc (suc (2 * i + 1)) = omega arith in
        ap₂
          (λ a b.
            get_or alphabet
              ((get_or (lo ∷ hi ∷ digest) a 0 + 256 * get_or (lo ∷ hi ∷ digest) b 0) % 62) 0)
          even odd

    there :
        password_chars (lo ∷ hi ∷ digest) ≡ p ∷ take k pwd
        → (i : ℕ) → i < suc k
        → get_elem? (p ∷ pwd) i ≡ some (picked (lo ∷ hi ∷ digest) i)
    there e zero low = ap some (sym (ap (λ t. get_or t 0 0) e) ∙ first)
    there e (suc i) low = rest.0 (ap (drop 1) e) i (omega arith) ∙ ap some (sym (later i))

    back :
        ((i : ℕ) → i < suc k → get_elem? (p ∷ pwd) i ≡ some (picked (lo ∷ hi ∷ digest) i))
        → password_chars (lo ∷ hi ∷ digest) ≡ p ∷ take k pwd
    back all =
        ap₂ (λ c cs. c ∷ cs) (first ∙ sym (some_inj (all 0 (omega arith))))
          (rest.1 (λ i low. all (suc i) (omega arith) ∙ ap some (later i)))

-- The characters of the pairs, against a text, one by one.
chars_lem :
    (k : ℕ) (digest pwd : List ℕ)
    → length digest ≡ 2 * k
    → (password_chars digest ≡ take k pwd)
      ↔ ((i : ℕ) → i < k → get_elem? pwd i ≡ some (picked digest i))
unfolding password_chars
chars_lem zero [] pwd size = (λ e i low. absurd (omega arith), λ all. refl)
chars_lem zero (lo ∷ digest) pwd size = absurd (omega arith)
chars_lem (suc k) [] pwd size = absurd (omega arith)
chars_lem (suc k) (lo ∷ []) pwd size = absurd (omega arith)
chars_lem (suc k) (lo ∷ hi ∷ digest) [] size = (λ e i low. cc, λ all. cc (all 0 (omega arith)))
chars_lem (suc k) (lo ∷ hi ∷ digest) (p ∷ pwd) size =
    chars_step k lo hi p digest pwd (chars_lem k digest pwd (omega arith))

-- A text whose first `n` bytes are all `b`.
filled_front :
    (n b : ℕ) (xs rest : List ℕ)
    → ((j : ℕ) → j < n → get_elem? xs j ≡ some b)
    → drop n xs ≡ rest
    → xs ≡ replicate n b ++ rest
filled_front zero b xs rest all e = e
filled_front (suc n) b [] rest all e = cc (all 0 (omega arith))
filled_front (suc n) b (x ∷ xs) rest all e =
    ap₂ (λ c cs. c ∷ cs) (some_inj (all 0 (omega arith)))
      (filled_front n b xs rest (λ j low. all (suc j) (omega arith)) e)

joined : (n : ℕ) (xs ys zs : List ℕ) → take n xs ≡ ys → drop n xs ≡ zs → xs ≡ ys ++ zs
joined zero xs ys zs e f = f ∙ ap (λ t. t ++ zs) e
joined (suc n) [] ys zs e f = ap₂ (λ a b. a ++ b) e f
joined (suc n) (x ∷ xs) ys zs e f =
    ap (λ t. x ∷ t) (joined n xs (take n xs) zs refl f) ∙ ap (λ t. t ++ zs) e

-- For an offset `n` that is not negative: let `text` be the MAC's 6 bytes, `n + 10` bytes `n % 62`,
-- and the serial number up to its NUL. `CheckPwd` accepts a password exactly when each of its first
-- eight characters is the one of A-Z, 0-9, a-z that the pair of bytes in its place of the text's
-- MD5 digest picks, low byte first and modulo 62; whatever the 64 bytes of the MD5 buffer held, for
-- a text whose length plus 64 fits 32 bits.
pub check_pwd_iff :
    (stack : List ℕ) (n : ℕ) (pwd mac ser_all text : List ℕ)
    → length stack ≡ 64
    → length text + 64 ≤ 2 ^ 32
    → take 6 text ≡ mac
    → ((j : ℕ) → j < n + 10 → get_elem? (drop 6 text) j ≡ some (n % 62))
    → drop (n + 10) (drop 6 text) ≡ c_str ser_all
    → (check_pwd stack (pos n) pwd mac ser_all ≡ some true)
      ↔ ((i : ℕ) → i < 8 → get_elem? pwd i ≡ some (picked (rfc_md5 text) i))
unfolding check_pwd password
check_pwd_iff stack n pwd mac ser_all text room small front fill back = (
  λ e. compared.0 (bytes_eq_sound _ _ (some_inj e)),
  λ all. ap some (ap (λ t. bytes_eq t (take 8 pwd)) (compared.1 all) ∙ bytes_eq_refl (take 8 pwd)),
)
  where
    made : text ≡ password_text (n + 10) (pos n) mac (c_str ser_all)
    made =
        joined 6 text mac _ front
          (filled_front (n + 10) (n % 62) (drop 6 text) (c_str ser_all) fill back)

    digest : md5_data stack (password_text (n + 10) (pos n) mac (c_str ser_all)) ≡ rfc_md5 text
    digest = ap (md5_data stack) (sym made) ∙ (md_bytes-eq-rfc stack text room small).1

    sixteen : length (rfc_md5 text) ≡ 2 * 8
    sixteen =
        ap length (sym (md_bytes-eq-rfc stack text room small).0) ∙ (md_bytes_shape stack text).0

    compared :
        (password stack (n + 10) (pos n) mac (c_str ser_all) ≡ take 8 pwd)
        ↔ ((i : ℕ) → i < 8 → get_elem? pwd i ≡ some (picked (rfc_md5 text) i))
    compared =
        let chars = chars_lem 8 (rfc_md5 text) pwd sixteen in
        (
          λ e. chars.0 (sym (ap password_chars digest) ∙ e),
          λ all. ap password_chars digest ∙ chars.1 all,
        )
