-- ===== src/Docker.antt =====
-- internal/collectors/docker: the containers of a Docker daemon. Its answers are given, decoded.
pub mod Limits
pub mod Container
pub mod Round
pub mod States
use prostometrics_agent.Base.{ℕ, Bool, List, Option, Bytes}

pub record ContainerSummary : Type 0 where
  pub id : Bytes
  pub names : List Bytes
  pub labels : List (Bytes × Bytes)
  pub state : Bytes
  pub status : Bytes

pub record MemoryStats : Type 0 where
  pub usage : ℕ
  pub limit : ℕ
  pub stats : List (Bytes × ℕ)

pub record CpuStats : Type 0 where
  pub total_usage : ℕ
  pub percpu_usage : List ℕ
  pub system_usage : ℕ
  pub online_cpus : ℕ
  pub periods : ℕ
  pub throttled_periods : ℕ

-- `networks` holds the bytes received and sent.
pub record Stats : Type 0 where
  pub cpu : CpuStats
  pub memory : MemoryStats
  pub networks : List (Bytes × (ℕ × ℕ))

-- The health is none if the container has no health check.
pub record ContainerInfo : Type 0 where
  pub restart_count : ℕ
  pub state_restart_count : ℕ
  pub oom_killed : Bool
  pub health : Option Bytes

pub record CpuPrev : Type 0 where
  pub total_usage : ℕ
  pub system_usage : ℕ
  pub periods : ℕ
  pub throttled_periods : ℕ

pub data LabelMode : Type 0 where
  by_service by_container : LabelMode
