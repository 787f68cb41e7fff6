-- ===== src/Tests.antt =====
-- Runs of the modelled code at small inputs, and the properties applied to such inputs.
mod Samples
mod Texts
mod Filtered
mod Deduplicated
mod Divided
mod Ledgers
mod Snapshots
mod Alignments
mod Lengths
mod Tools
mod Promoted
mod LossMasked
mod MaskReported
