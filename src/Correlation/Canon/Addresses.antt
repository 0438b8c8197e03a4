-- ===== src/Correlation/Canon/Addresses.antt =====
-- recon/correlation/engine.py, `_canon_ip`: the canonical forms of IPv4 addresses.
use recon_platform.Prelude.{
  ℕ, ◌/◌, ◌%◌, ◌^◌, ◌<◌, ◌≡◌, ◌↔◌, refl, sym, ap, ◌∙◌, Bool, true, some, [], ◌∷◌, ◌++◌, all, arith,
}
use recon_platform.Prelude.Text.{Text, is_digit, strip}
use recon_platform.Scope.Names.{name_char, IsName, strip-IsName}
use recon_platform.Scope.Ip.{v4, Address, parse_v4, ip_address}
use recon_platform.Scope.Ip.Print.{print_octet, print_v4, print_address}
use recon_platform.Scope.Ip.RoundTrip.{parse_v4-print_v4, parse_v4_bound, digits-print_octet}
use recon_platform.Correlation.Canon.{canon_ip, canon_address, address_text}

abbrev pub address_v4 : ℕ → Address
address_v4 n = record { version = v4; number = n }

digits-IsName : (s : Text) → all is_digit s ≡ true → IsName s
digits-IsName [] h = refl
digits-IsName (c ∷ s) h = ground (arith, digits-IsName s)

all-append : (p : ℕ → Bool) (s t : Text) → all p s ≡ true → all p t ≡ true → all p (s ++ t) ≡ true
all-append p [] t h k = k
all-append p (c ∷ s) t h k = ground (arith, all-append p s t)

octet-IsName : (o : ℕ) → o < 256 → IsName (print_octet o)
octet-IsName o h = digits-IsName (print_octet o) (digits-print_octet o h)

print_v4-IsName : (n : ℕ) → n < 2 ^ 32 → IsName (print_v4 n)
unfolding print_v4
print_v4-IsName n h =
    all-append name_char (print_octet (n / 256 / 256 / 256)) _
      (octet-IsName (n / 256 / 256 / 256) (omega arith))
      (all-append name_char (print_octet (n / 256 / 256 % 256)) _
        (octet-IsName (n / 256 / 256 % 256) (omega arith))
        (all-append name_char (print_octet (n / 256 % 256)) _
          (octet-IsName (n / 256 % 256) (omega arith)) (octet-IsName (n % 256) (omega arith))))

-- A dotted quad is read as IPv4.
v4_text : (s : Text) {n : ℕ} → ip_address s ≡ some (address_v4 n) → parse_v4 s ≡ some n
unfolding ip_address
v4_text s h = ground arith

text_v4 : (s : Text) {n : ℕ} → parse_v4 s ≡ some n → ip_address s ≡ some (address_v4 n)
unfolding ip_address
text_v4 s h = rw (h, ip_address) refl

canon_ip-v4 :
    (s : Text) {n : ℕ} → ip_address (strip s) ≡ some (address_v4 n) → canon_ip s ≡ print_v4 n
unfolding canon_ip canon_address address_text print_address
canon_ip-v4 s h = rw h refl

reads-canon_ip :
    (s : Text) {n : ℕ}
    → ip_address (strip s) ≡ some (address_v4 n)
    → ip_address (strip (canon_ip s)) ≡ some (address_v4 n)
reads-canon_ip s {n} h =
    let bound : n < 2 ^ 32 = parse_v4_bound (strip s) (v4_text (strip s) h) in
    rw (canon_ip-v4 s h, strip-IsName (print_v4 n) (print_v4-IsName n bound))
      (text_v4 (print_v4 n) (parse_v4-print_v4 n bound))

reads_same :
    (s t : Text)
    → canon_ip s ≡ canon_ip t
    → ip_address (strip (canon_ip s)) ≡ ip_address (strip (canon_ip t))
reads_same s t same = ap (λ (x : Text). ip_address (strip x)) same

-- The canonical form of a text that is read as an IPv4 address is read as the same address and is its
-- own canonical form; and two such texts get one form, and with it one asset, exactly if they are the
-- same address.
pub canon_ip-reads :
    (s t : Text) {m n : ℕ}
    → ip_address (strip s) ≡ some (address_v4 m)
    → ip_address (strip t) ≡ some (address_v4 n)
    → (ip_address (strip (canon_ip s)) ≡ some (address_v4 m))
      × (canon_ip (canon_ip s) ≡ canon_ip s)
      × ((canon_ip s ≡ canon_ip t) ↔ (m ≡ n))
canon_ip-reads s t {m} {n} h k = (
  reads-canon_ip s h,
  canon_ip-v4 (canon_ip s) (reads-canon_ip s h) ∙ sym (canon_ip-v4 s h),
  (
    λ same. cc (sym (reads-canon_ip s h) ∙ reads_same s t same ∙ reads-canon_ip t k),
    λ same. canon_ip-v4 s h ∙ ap print_v4 same ∙ sym (canon_ip-v4 t k),
  ),
)
