-- ===== src/Topology/Parts.antt =====
-- One node's part of a topology text: its name, its address, and how each is found again.
use mathlib.Core.Path.{ap₂}
use flux_pg_cluster.Base.{
  ℕ, ◌≡◌, ◌≢◌, refl, sym, ap, ◌∙◌, Bool, true, false, ◌&&◌, ◌||◌, some, [], ◌∷◌, ◌++◌, ◌==◌, leb,
  if◌then◌else◌, All, All-append, All-map, arith, Bool-cases, inl, inr,
}
use flux_pg_cluster.Base.Int.{ℤ}
use flux_pg_cluster.Config.{Config, etcd_protocol}
use flux_pg_cluster.Number.{itoa}
use flux_pg_cluster.Number.Laws.{itoa-All, IsPlainDigit}
use flux_pg_cluster.Text.{Text, codes, after_first, cut, is_space, replace_all, trim_space}
use flux_pg_cluster.Text.Laws.{
  before_last-append, cut-append, Lacks, NoSpace, NoSpace-IsTrimmed, replace_all_byte,
}
use flux_pg_cluster.Topology.{
  node_name_from_ip, host_port, etcd_url, initial_part, extract_host_from_url,
}

abbrev pub is_address_byte : ℕ → Bool
is_address_byte c = (leb b'0' c && leb c b'9') || c == b'.'

-- A dotted address: not empty, digits and dots only.
pub record IsAddress (ip : Text) : Type 0 where
  pub ne_nil : ip ≢ []
  pub dotted : All (λ c. is_address_byte c ≡ true) ip

-- A property of bytes that the bytes of addresses, names, ports and schemes have.
pub record IsHarmless (P : ℕ → Type 0) : Type 0 where
  pub on_address : (c : ℕ) → is_address_byte c ≡ true → P c
  pub on_digit : (c : ℕ) → IsPlainDigit c → P c
  pub on_dash : P b'-'
  pub on_node : All P (codes "node")

replace_dots-All :
    (P : ℕ → Type 0) (ip : Text)
    → P b'-'
    → All P ip
    → All P (replace_all ip (codes ".") (codes "-"))
replace_dots-All P [] d h = unfold replace_all in tt
replace_dots-All P (c ∷ s) d h = elim (Bool-cases (c == b'.')) [
  | inl dot ↦ rw (replace_all_byte, dot) (d, replace_dots-All P s d h.1)
  | inr other ↦ rw (replace_all_byte, other) (h.0, replace_dots-All P s d h.1)
]

module _ {P : ℕ → Type 0} (h : IsHarmless P) (ip : Text) (a : IsAddress ip) where
  pub ip-All : All P ip
  ip-All = All-map h.on_address ip a.dotted

  pub node_name-All : All P (node_name_from_ip ip)
  unfolding node_name_from_ip
  node_name-All =
      All-append P (codes "node-") _
        (All-append P (codes "node") (codes "-") h.on_node (h.on_dash, tt))
        (replace_dots-All P ip h.on_dash ip-All)

  pub host_port-All : (port : ℤ) → P b':' → All P (host_port ip port)
  host_port-All port colon = All-append P ip _ ip-All (colon, itoa-All P h.on_dash h.on_digit port)

  pub initial_part-All :
      (cfg : Config)
      → P b':'
      → P b'='
      → All P (codes "://")
      → All P (etcd_protocol cfg)
      → All P (initial_part cfg ip)
  unfolding initial_part etcd_url
  initial_part-All cfg colon equals slashes scheme =
      All-append P (node_name_from_ip ip) _ node_name-All (
        equals,
        All-append P (etcd_protocol cfg) _ scheme
            (All-append P (codes "://") _ slashes (host_port-All cfg.host_etcd_peer_port colon)),
      )

etcd_protocol-All :
    (P : ℕ → Type 0) (cfg : Config) → All P (codes "https") → All P (etcd_protocol cfg)
unfolding etcd_protocol
etcd_protocol-All P cfg h = elim (Bool-cases cfg.ssl_enabled) [
  | inl on ↦ rw on h
  | inr off ↦ rw off (h.0, (h.1.0, (h.1.1.0, (h.1.1.1.0, tt))))
]

pub Lacks-IsHarmless :
    (b : ℕ)
    → is_address_byte b ≡ false
    → ((c : ℕ) → IsPlainDigit c → c ≢ b)
    → b ≢ b'-'
    → All (λ c. c ≢ b) (codes "node")
    → IsHarmless (λ c. c ≢ b)
Lacks-IsHarmless b h d n k = record {
  on_address = λ c a e. ground (arith, e);
  on_digit = d;
  on_dash = λ e. n (sym e);
  on_node = k;
}

pub comma-IsHarmless : IsHarmless (λ c. c ≢ b',')
comma-IsHarmless = Lacks-IsHarmless b',' refl (λ c d. omega arith) (omega arith) (omega arith)

pub equals-IsHarmless : IsHarmless (λ c. c ≢ b'=')
equals-IsHarmless = Lacks-IsHarmless b'=' refl (λ c d. omega arith) (omega arith) (omega arith)

pub colon-IsHarmless : IsHarmless (λ c. c ≢ b':')
colon-IsHarmless = Lacks-IsHarmless b':' refl (λ c d. omega arith) (omega arith) (omega arith)

pub NoSpace-IsHarmless : IsHarmless (λ c. is_space c ≡ false)
NoSpace-IsHarmless = record {
  on_address = λ c a. ground arith;
  on_digit = λ c d. d.0;
  on_dash = refl;
  on_node = (refl, (refl, (refl, (refl, tt))));
}

pub initial_part-Lacks_comma :
    (cfg : Config) (ip : Text) → IsAddress ip → Lacks b',' (initial_part cfg ip)
initial_part-Lacks_comma cfg ip a =
    initial_part-All comma-IsHarmless ip a cfg (omega arith) (omega arith) (omega arith)
      (etcd_protocol-All _ cfg (omega arith))

pub initial_part-NoSpace : (cfg : Config) (ip : Text) → IsAddress ip → NoSpace (initial_part cfg ip)
initial_part-NoSpace cfg ip a =
    initial_part-All NoSpace-IsHarmless ip a cfg refl refl (refl, (refl, (refl, tt)))
      (etcd_protocol-All _ cfg (refl, (refl, (refl, (refl, (refl, tt))))))

scheme_lem :
    (cfg : Config) (c : ℕ) (s : Text)
    → after_first (codes "://") (etcd_protocol cfg ++ (codes "://" ++ c ∷ s)) ≡ some (c ∷ s)
unfolding after_first etcd_protocol
scheme_lem cfg c s = elim (Bool-cases cfg.ssl_enabled) [
  | inl on ↦ rw on refl
  | inr off ↦ rw off refl
]

-- A node's address stands in its URL, whatever the scheme and the port.
pub extract-etcd_url :
    (cfg : Config) (ip : Text) (port : ℤ)
    → IsAddress ip
    → extract_host_from_url (etcd_url cfg ip port) ≡ ip
unfolding extract_host_from_url etcd_url
extract-etcd_url cfg [] port a = absurd (a.ne_nil refl)
extract-etcd_url cfg (c ∷ s) port a = rw (scheme_lem cfg c (s ++ b':' ∷ itoa port)) (
    rw
      (before_last-append b':' (c ∷ s) (itoa port)
        (itoa-All (λ c. c ≢ b':') (omega arith) (λ c d. omega arith) port))
      refl)

-- The name of a part, and its URL.
pub cut-initial_part :
    (cfg : Config) (ip : Text)
    → IsAddress ip
    → cut b'=' (trim_space (initial_part cfg ip))
      ≡ some (node_name_from_ip ip, etcd_url cfg ip cfg.host_etcd_peer_port)
unfolding initial_part
cut-initial_part cfg ip a =
    ap (cut b'=') (NoSpace-IsTrimmed (initial_part cfg ip) (initial_part-NoSpace cfg ip a))
    ∙ cut-append b'=' (node_name_from_ip ip) _ (node_name-All equals-IsHarmless ip a)

abbrev dashed : ℕ → ℕ
dashed c = if c == b'.' then b'-' else c

replace_dots_cons :
    (c : ℕ) (s : Text)
    → replace_all (c ∷ s) (codes ".") (codes "-") ≡ dashed c ∷ replace_all s (codes ".") (codes "-")
replace_dots_cons c s = elim (Bool-cases (c == b'.')) [
  | inl dot ↦ rw (replace_all_byte, dot) refl
  | inr other ↦ rw (replace_all_byte, other) refl
]

replace_dots_nil : replace_all [] (codes ".") (codes "-") ≡ []
unfolding replace_all
replace_dots_nil = refl

replace_dots-injective :
    (a b : Text)
    → All (λ c. is_address_byte c ≡ true) a
    → All (λ c. is_address_byte c ≡ true) b
    → replace_all a (codes ".") (codes "-") ≡ replace_all b (codes ".") (codes "-")
    → a ≡ b
replace_dots-injective [] [] h k e = refl
replace_dots-injective [] (d ∷ t) h k e = cc (replace_dots_nil, replace_dots_cons d t)
replace_dots-injective (c ∷ s) [] h k e = cc (replace_dots_nil, replace_dots_cons c s)
replace_dots-injective (c ∷ s) (d ∷ t) h k e =
    let r : dashed c ∷ replace_all s (codes ".") (codes "-")
        ≡ dashed d ∷ replace_all t (codes ".") (codes "-") =
      sym (replace_dots_cons c s) ∙ e ∙ replace_dots_cons d t in
    let heads : dashed c ≡ dashed d = cc in
    let tails : replace_all s (codes ".") (codes "-") ≡ replace_all t (codes ".") (codes "-") =
      cc in
    ap₂ ◌∷◌ (ground arith) (replace_dots-injective s t h.1 k.1 tails)

pub node_name-injective :
    (a b : Text) → IsAddress a → IsAddress b → node_name_from_ip a ≡ node_name_from_ip b → a ≡ b
unfolding node_name_from_ip
node_name-injective a b h k e = replace_dots-injective a b h.dotted k.dotted cc
