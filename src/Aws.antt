-- ===== src/Aws.antt =====
-- internal/substrate/aws: the EC2 client, its classifier, and the cohort ports over it.
pub mod Errors
pub mod Classifier
pub mod Retry
pub mod Client
pub mod Actuator
pub mod Launch
