-- ===== src/Billing.antt =====
-- src/modules/billing: the plan of a subscription, the webhook of Stripe and the billing profile.
pub mod Plans
pub mod Webhook
pub mod Profile
mod Tests
