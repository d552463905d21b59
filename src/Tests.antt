-- ===== src/Tests.antt =====
-- Runs of the models on concrete input, and the theorems at inputs that meet their hypotheses.
mod Text
mod Manifest
mod Queue
mod Arrays
mod Strings
mod Numbers
mod Tables
mod Maps
mod Tokens
mod Line
mod Archives
mod Thread
mod Downloads
mod Sets
mod Cells
mod Names
