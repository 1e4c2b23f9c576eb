-- ===== src/Bot/Admission.antt =====
-- Who is sent an invitation by app/services/bot_conversation.py.
use vip_channel_management_s.Prelude.{ap, ℕ, true, some, List, Text, ◌≡◌, refl, arith, subst}
use vip_channel_management_s.Messages.{Message}
use vip_channel_management_s.World.{World, lift}
use vip_channel_management_s.Enums.{ProviderType, Market}
use vip_channel_management_s.Bot.Render.{Reply, render, message_for, shortfall_message}
use vip_channel_management_s.Bot.Flow.{IncomingUpdate, submit, names_of, link_of, handle, or_empty}
use vip_channel_management_s.Onboarding.Flow.{OnboardingResult, submit_uid, OnboardingOutcome}
use vip_channel_management_s.Errors.{ok}
use vip_channel_management_s.Onboarding.Outcomes.{admitted, Admission, submit_uid-admitted}
use vip_channel_management_s.Repositories.{get_for}
use vip_channel_management_s.World.Bind.{bind_ok}
use vip_channel_management_s.Uid.{strip}
use vip_channel_management_s.Bot.Plain.{invites, is_invitation, Plain-start, Plain-press}
use vip_channel_management_s.Bot.Every.{
  AnswerRules, same_world, handle-Holds, get_for-reads, Chosen, uid_of,
}
use vip_channel_management_s.Uid.Normal.{normalize_uid_idem}

message_for-invitation :
    (o : OnboardingOutcome) (r : OnboardingResult) (link : Text) (message : Message)
    → message_for o r link ≡ ok message
    → is_invitation message ≡ true
    → admitted o ≡ true
unfolding message_for shortfall_message
message_for-invitation OnboardingOutcome.invited r link message e h = refl
message_for-invitation OnboardingOutcome.already_member r link message e h = refl
message_for-invitation _ r link message e h = ground arith

-- The tenant whose bot it is let the sender of the update in: for a market that the sender chose,
-- and the UID that the update sends.
abbrev pub LetIn : ProviderType → ℕ → IncomingUpdate → World → Type 0
LetIn p t u w = (m : Market) × Chosen p t u w m × Admission p t m (uid_of u) w

module _ (p : ProviderType) (t : ℕ) (u : IncomingUpdate) where
  submit-LetIn :
      (m : Market) (w : World) {rs : List Reply} {w' : World}
      → Chosen p t u w m
      → submit p t u (uid_of u) m w ≡ (ok rs, w')
      → invites rs ≡ true
      → LetIn p t u w
  unfolding submit render
  submit-LetIn m w c e h =
      let uid : Text = uid_of u in
      let (config, w1, e1, k1) = bind_ok (get_for t p m) _ w e in
      let (result, w2, e2, k2) = bind_ok (submit_uid p t u.user_id m uid (names_of u)) _ w1 k1 in
      let (message, w3, e3, k3) = bind_ok (lift (render result (link_of config))) _ w2 k2 in
      let told : is_invitation message ≡ true = ground arith in
      (
        m,
        c,
        subst (Admission p t m uid) (same_world (get_for t p m) w (get_for-reads p t w m) e1) (
            subst (λ x. Admission p t m x w1) (normalize_uid_idem (some (strip (or_empty u.text))))
              (submit_uid-admitted p t u.user_id m (names_of u) uid w1 e2 (
                message_for-invitation result.outcome result (link_of config) message
                  (ap (λ x. x.0) e3) told))),
      )

  LetIn-answers : AnswerRules (λ w rs. invites rs ≡ true → LetIn p t u w) p t u
  LetIn-answers = record {
    started = λ w rs w' e h. absurd (cc ((Plain-start p t u).holds w _ _ e));
    submitted = λ m w c rs w' e h. submit-LetIn m w c e h;
    pressed = λ o w rs w' e h. absurd (cc ((Plain-press p t u o).holds w _ _ e));
    said = λ message plain w rs w' e h. absurd (ground arith);
  }

  -- The bot sends an invite link only where the exchange confirmed the UID that was sent: when its
  -- answer to an update carries a link, then the UID in the text of the update was valid; for the
  -- market that the sender had chosen before, or that was the only one to offer, the tenant's
  -- configuration was found and is active; and to a call for this UID the exchange answered with a
  -- registered account that holds at least the minimum of that configuration.
  pub handle-LetIn :
      (w : World) {rs : List Reply} {w' : World}
      → handle p t u w ≡ (ok rs, w')
      → invites rs ≡ true
      → LetIn p t u w
  handle-LetIn w e h = handle-Holds LetIn-answers w _ _ e h
