-- ===== src/Migrations/Columns.antt =====
-- The columns, constraints and enumerated types that the revisions of migrations/versions share.
use vip_channel_management_s.Prelude.{Bool, Option, List, [], ◌∷◌, Text, codes}
use Prim.Native.String.{String}
use vip_channel_management_s.Migrations.{Column, ColumnType, enumeration, UniqueConstraint}

-- `sa.Column(name, type, nullable=nullable)`
abbrev pub column : String → ColumnType → Bool → Column
column name type nullable = record { name = codes name; type = type; nullable = nullable }

-- `sa.UniqueConstraint(*columns, name=name)`
abbrev pub unique_constraint : List Text → Option Text → UniqueConstraint
unique_constraint columns name = record { columns = columns; name = name }

abbrev pub provider_type_enum : ColumnType
provider_type_enum =
    enumeration (codes "providertype") (codes "BITUNIX" ∷ codes "EPLANET" ∷ codes "TELEGRAM" ∷ [])
      32

abbrev pub market_enum : ColumnType
market_enum = enumeration (codes "market") (codes "CRYPTO" ∷ codes "FOREX" ∷ []) 16

abbrev pub referral_account_status_enum : ColumnType
referral_account_status_enum =
    enumeration (codes "referralaccountstatus")
      (codes "UNVERIFIED" ∷ codes "VERIFIED" ∷ codes "REJECTED" ∷ []) 32

abbrev pub compliance_state_enum : ColumnType
compliance_state_enum =
    enumeration (codes "compliancestate")
      (codes "COMPLIANT"
        ∷ codes "WARNING"
        ∷ codes "NON_COMPLIANT"
        ∷ codes "SUSPENDED"
        ∷ codes "REVOKED"
        ∷ codes "PROVIDER_UNAVAILABLE"
        ∷ codes "VERIFICATION_PENDING"
        ∷ [])
      32

abbrev pub access_type_enum : ColumnType
access_type_enum =
    enumeration (codes "accesstype") (codes "REFERRAL" ∷ codes "PAID" ∷ codes "TRIAL" ∷ []) 32

abbrev pub subscription_status_enum : ColumnType
subscription_status_enum =
    enumeration (codes "subscriptionstatus")
      (codes "PENDING" ∷ codes "ACTIVE" ∷ codes "EXPIRED" ∷ codes "CANCELLED" ∷ []) 32

abbrev pub membership_status_enum : ColumnType
membership_status_enum =
    enumeration (codes "membershipstatus")
      (codes "PENDING"
        ∷ codes "INVITED"
        ∷ codes "ACTIVE"
        ∷ codes "SUSPENDED"
        ∷ codes "EXPIRED"
        ∷ codes "REVOKED"
        ∷ [])
      32

abbrev pub job_run_state_enum : ColumnType
job_run_state_enum =
    enumeration (codes "jobrunstate") (codes "RUNNING" ∷ codes "SUCCEEDED" ∷ codes "FAILED" ∷ []) 32
