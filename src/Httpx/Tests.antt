-- ===== src/Httpx/Tests.antt =====
-- The theorems on requests at concrete inputs. Addresses are their own text.
use project_management.Identity.Base64.{decode}
use project_management.Identity.Text.{trim_space}
use project_management.Identity.Password.Reading.{split_at}
use project_management.Httpx.Attribution.{is_settled, client_ip_unforged}
use project_management.Httpx.Csrf.{Request, Checked, IsChecked, served, csrf, csrf_pair}
use project_management.Identity.Base64.{encode}
use project_management.Httpx.{Netip, forwarded_for, trusts, parse_addr, walk, client_ip}
use project_management.Prelude.{
  ap, replicate, true, false, none, some, List, [], ◌∷◌, ◌++◌, Bytes, length, codes, bytes_eq,
  bytes_eq_iff, ◌≢◌, ◌≡◌, refl,
}

abbrev texts : Netip Bytes Bytes
texts = record {
  split_host_port = λ raw. none;
  parse_addr = λ raw. some raw;
  unmap = λ addr. addr;
  without_zone = λ addr. addr;
  contains = λ prefix addr. bytes_eq prefix addr;
  is_6 = λ addr. false;
  is_4_in_6 = λ addr. false;
  prefix = λ addr bits. none;
  prefix_string = λ prefix. prefix;
  addr_string = λ addr. addr;
}

abbrev ours : List Bytes
ours = codes "10.0.0.5" ∷ []

settled_runs :
    is_settled texts ours (parse_addr texts (codes "10.0.0.5")) (codes " 5.6.7.8, 10.0.0.5" ∷ [])
    ≡ true
unfolding parse_addr trusts bytes_eq walk forwarded_for split_at trim_space
settled_runs = refl

client_ip_unforged_example :
    client_ip texts ours
      (codes "10.0.0.5")
      ((codes "1.2.3.4" ++ (b',' ∷ codes " 5.6.7.8, 10.0.0.5")) ∷ [])
    ≡ client_ip texts ours (codes "10.0.0.5") (codes " 5.6.7.8, 10.0.0.5" ∷ [])
client_ip_unforged_example =
    client_ip_unforged texts ours (codes "10.0.0.5") (codes " 5.6.7.8, 10.0.0.5") [] settled_runs []
      (codes "1.2.3.4")

abbrev same : Bytes → Bytes
same s = s

abbrev raw : Bytes
raw = replicate 32 7

-- A POST that sends the token back.
abbrev post : Request
post = record {
  method = codes "POST";
  authorization = [];
  cookie = some (encode raw);
  header = encode raw;
}

differ : (a b : Bytes) → bytes_eq a b ≡ false → a ≢ b
differ a b h e = cc (h, (bytes_eq_iff a b).1 e)

post-IsChecked : IsChecked same post
unfolding bytes_eq
post-IsChecked = (differ _ _ refl, differ _ _ refl, differ _ _ refl, λ rest q. cc)

post_passes : csrf same none post ≡ record { outcome = served; issued = none }
unfolding csrf decode encode bytes_eq
post_passes = refl

post_served : (csrf same none post).outcome ≡ served
post_served = ap (λ (c : Checked). c.outcome) post_passes

csrf_pair_example :
    (issued drawn : Bytes) × (post.cookie ≡ some issued)
    × (decode issued ≡ some drawn)
    × (length drawn ≡ 32)
    × (post.header ≡ issued)
    × ((csrf same none post).issued ≡ none)
csrf_pair_example = csrf_pair same none post post-IsChecked post_served
