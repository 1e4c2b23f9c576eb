-- ===== src/Admin/Sealed.antt =====
-- The row in which `_store_secret` of app/adapters/web/routers/admin.py leaves a secret.
use vip_channel_management_s.Admin.Secrets.{
  store_secret, write_secret, rotated, credential_row, service_unavailable, encrypt_secret,
}
use vip_channel_management_s.Tables.Lookup.{one_or_none-passes, one_or_none-world}
use vip_channel_management_s.Enums.{ProviderType, eq_provider}
use vip_channel_management_s.Prelude.{
  refl, ◌∷◌, ℕ, Text, Option, eq_text, Bool, ◌≡◌, true, some, ◌==◌, ◌&&◌, arith, subst, ◌+◌, sym,
  eq_text_sound, eq_text_refl, ap, none, ◌∙◌, [],
}
use vip_channel_management_s.Repositories.{get_named, save}
use vip_channel_management_s.Models.{ProviderCredential}
use vip_channel_management_s.World.{◌>>=◌, World, lift}
use vip_channel_management_s.Errors.{ok-inj, ok, err, Error}
use vip_channel_management_s.Tables.Instances.{credentials_table}
use vip_channel_management_s.Tables.Constraints.{AllKeyed}
use vip_channel_management_s.Tables.{flush_row}
use vip_channel_management_s.World.Bind.{bind_ok}

abbrev pub is_named : ℕ → ProviderType → Text → ProviderCredential → Bool
is_named t p name r =
    r.tenant_id == t && (eq_provider r.provider_type p && eq_text r.credential_name name)

pub eq_provider_refl : (p : ProviderType) → eq_provider p p ≡ true
eq_provider_refl ProviderType.bitunix = refl
eq_provider_refl ProviderType.eplanet = refl
eq_provider_refl ProviderType.telegram = refl

pub eq_provider_trans :
    (a b p : ProviderType)
    → eq_provider a p ≡ true
    → eq_provider b p ≡ true
    → eq_provider a b ≡ true
eq_provider_trans ProviderType.bitunix ProviderType.bitunix p h k = refl
eq_provider_trans ProviderType.eplanet ProviderType.eplanet p h k = refl
eq_provider_trans ProviderType.telegram ProviderType.telegram p h k = refl
eq_provider_trans a b p h k = ground arith

pub eq_text_trans : (a b c : Text) → eq_text a c ≡ true → eq_text b c ≡ true → eq_text a b ≡ true
eq_text_trans a b c h k = subst (λ x. eq_text a x ≡ true) (sym (eq_text_sound b c k)) h

pub is_named-key :
    (t : ℕ) (p : ProviderType) (name : Text) (a b : ProviderCredential)
    → is_named t p name a ≡ true
    → is_named t p name b ≡ true
    → credentials_table.same_key a b ≡ true
is_named-key t p name a b h k = ground (
  arith,
  eq_provider_trans a.provider_type b.provider_type p,
  eq_text_trans a.credential_name b.credential_name name,
)

-- The row that was stored, and the flush that stored it.
pub record Stores (t : ℕ) (p : ProviderType) (name ciphertext : Text) (r : ProviderCredential)
    (w' : World) : Type 0 where
  pub row : ProviderCredential
  pub before : World
  pub bound : before.bound ≡ some t
  pub keyed : AllKeyed before.db
  pub named : is_named t p name row ≡ true
  pub sealed : row.encrypted_secret ≡ ciphertext
  pub flushed : flush_row credentials_table row before ≡ (ok r, w')

pub write_secret-Stores :
    (t : ℕ) (p : ProviderType) (name ciphertext s : Text) (existing : Option ProviderCredential)
    (r : ProviderCredential) (w w' : World)
    → w.bound ≡ some t
    → AllKeyed w.db
    → get_named t p name w ≡ (ok existing, w)
    → write_secret t p name ciphertext s existing w ≡ (ok r, w')
    → Stores t p name ciphertext r w'
unfolding write_secret get_named save ◌>>=◌
write_secret-Stores t p name ciphertext s (some e) r w w' b k g h = record {
  row = rotated e ciphertext s;
  before = w;
  bound = b;
  keyed = k;
  named = one_or_none-passes credentials_table (is_named t p name) e w w g;
  sealed = refl;
  flushed = h;
}
write_secret-Stores t p name ciphertext s none r w w' b k g h = record {
  row = credential_row w.next_id t p name ciphertext s;
  before = record w { next_id = w.next_id + 1 };
  bound = b;
  keyed = k;
  named = ground (arith, eq_provider_refl p, eq_text_refl name);
  sealed = refl;
  flushed = h;
}

pub sealed_by :
    (o : Option Text) (c : Text)
    → service_unavailable
        (elim o [ none ↦ err Error.credential_encryption | some ciphertext ↦ ok ciphertext ])
      ≡ ok c
    → o ≡ some c
sealed_by none c h = cc
sealed_by (some d) c h = ap some (ok-inj h)

pub get_named-world :
    (t : ℕ) (p : ProviderType) (name : Text) (w : World) → (get_named t p name w).1 ≡ w
unfolding get_named
get_named-world t p name w = one_or_none-world credentials_table (is_named t p name) w

pub sealed_of :
    (encrypt : Text → Option Text) (s c : Text)
    → service_unavailable (encrypt_secret encrypt s) ≡ ok c
    → encrypt s ≡ some c
unfolding encrypt_secret
sealed_of encrypt [] c h = cc
sealed_of encrypt (x ∷ xs) c h = sealed_by (encrypt (x ∷ xs)) c h

-- What a stored secret comes to.
pub record Kept (encrypt : Text → Option Text) (t : ℕ) (p : ProviderType) (name s : Text)
    (r : ProviderCredential) (w' : World) : Type 0 where
  pub ciphertext : Text
  pub encrypted : encrypt s ≡ some ciphertext
  pub stores : Stores t p name ciphertext r w'

pub store_secret-Kept :
    (encrypt : Text → Option Text) (t : ℕ) (p : ProviderType) (name s : Text)
    (r : ProviderCredential) (w w' : World)
    → w.bound ≡ some t
    → AllKeyed w.db
    → store_secret encrypt t p name s w ≡ (ok r, w')
    → Kept encrypt t p name s r w'
unfolding store_secret
store_secret-Kept encrypt t p name s r w w' b k h =
    let (existing, u, g, h1) =
      bind_ok (get_named t p name)
        (λ existing. lift (service_unavailable (encrypt_secret encrypt s)) >>= λ c.
          write_secret t p name c s existing)
        w h in
    let uw : w ≡ u = sym (get_named-world t p name w) ∙ ap (λ q. q.1) g in
    let (c, v, l, h2) =
      bind_ok (lift (service_unavailable (encrypt_secret encrypt s)))
        (λ c. write_secret t p name c s existing) u h1 in
    let uv : u ≡ v = ap (λ q. q.1) l in
    record {
      ciphertext = c;
      encrypted = sealed_of encrypt s c (ap (λ q. q.0) l);
      stores =
          write_secret-Stores t p name c s existing r w w' b k (g ∙ (λ i. (ok existing, sym uw i)))
            (subst (λ x. write_secret t p name c s existing x ≡ (ok r, w')) (sym (uw ∙ uv)) h2);
    }
